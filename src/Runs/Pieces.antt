-- ===== src/Runs/Pieces.antt =====
-- A text through the SentencePiece tokenizer.
use project_willamette.Prelude.{
  ℕ, zero, suc, ◌+◌, ◌-◌, ◌≤◌, ◌<◌, ◌≡◌, ◌≢◌, refl, sym, ap, ◌∙◌, arith, true, none, some, List, [],
  ◌∷◌, ◌++◌, length, length-append, get_elem?, All, replicate, ltb, Bool-cases, inl, inr,
}
use mathlib.Core.Path.{subst}
use project_willamette.Gguf.Result.{ok}
use project_willamette.Editor.Text.{text_eq}
use project_willamette.Runs.Sampled.{naturals}
use project_willamette.Tokenizer.Bpe.Merged.{some-injective}
use project_willamette.Tokenizer.Pretokenize.Qwen2.{Text}
use project_willamette.Tokenizer.Vocabulary
use project_willamette.Tokenizer.Vocabulary.{
  as_bytes, char_end, token_id, token_id-get, id_from-known, u32_mod,
}
use project_willamette.Tokenizer.SentencePiece
use project_willamette.Tokenizer.SentencePiece.{
  SentencePiece, Symbols, byte_piece, space_mark, symbols_of_chars, normalized_text, merge_symbols,
  encode_sentencepiece, decode_sentencepiece, without_prefix,
}
use project_willamette.Tokenizer.SentencePiece.Merging.{flatten}
use project_willamette.Tokenizer.SentencePiece.RoundTrip.{
  HasPieces, IsOrdinary, decode_sentencepiece-encode_sentencepiece,
}

abbrev pieces_from : ℕ → ℕ → List Text
pieces_from zero b = []
pieces_from (suc n) b = byte_piece b ∷ pieces_from n (b + 1)

-- The mark, and the mark before an `h`.
abbrev words : List Text
words = (space_mark ∷ []) ∷ (space_mark ∷ 104 ∷ []) ∷ []

abbrev tokens : List Text
tokens = pieces_from 256 0 ++ words

abbrev types : List ℕ
types = replicate 256 6 ++ 1 ∷ 1 ∷ []

get-pieces :
    (n b k : ℕ) (ys : List Text)
    → k < n
    → get_elem? (pieces_from n b ++ ys) k ≡ some (byte_piece (b + k))
get-pieces zero b k ys h = elim h [ ]
get-pieces (suc n) b zero ys h = ap (λ b. some (byte_piece b)) {x = b} {y = b + 0} (omega arith)
get-pieces (suc n) b (suc k) ys h =
    get-pieces n (b + 1) k ys (omega arith)
    ∙ ap (λ b. some (byte_piece b)) {x = b + 1 + k} {y = b + suc k} (omega arith)

get-words :
    (n b k : ℕ) (ys : List Text)
    → n ≤ k
    → get_elem? (pieces_from n b ++ ys) k ≡ get_elem? ys (k - n)
get-words zero b k ys h = ap (get_elem? ys) {x = k} {y = k - 0} (omega arith)
get-words (suc n) b zero ys h = elim h [ ]
get-words (suc n) b (suc k) ys h =
    get-words n (b + 1) k ys (omega arith)
    ∙ ap (get_elem? ys) {x = k - n} {y = suc k - suc n} (omega arith)

get-replicate : (n k t : ℕ) (ys : List ℕ) → k < n → get_elem? (replicate n t ++ ys) k ≡ some t
get-replicate zero k t ys h = elim h [ ]
get-replicate (suc n) zero t ys h = refl
get-replicate (suc n) (suc k) t ys h = get-replicate n k t ys (omega arith)

length-pieces : (n b : ℕ) → length (pieces_from n b) ≡ n
length-pieces zero b = refl
length-pieces (suc n) b = ap suc (length-pieces n (b + 1))

tokens-fit : length tokens ≤ u32_mod
tokens-fit = omega (arith, length-append (pieces_from 256 0) words, length-pieces 256 0)

words-short : (j : ℕ) (t : Text) → get_elem? words j ≡ some t → length t ≤ 2
words-short zero t h = subst (λ t. length t ≤ 2) (some-injective h) (omega arith)
words-short (suc zero) t h = subst (λ t. length t ≤ 2) (some-injective h) (omega arith)
words-short (suc (suc j)) t h = cc

no_piece : (b j : ℕ) → get_elem? words j ≢ some (byte_piece b)
unfolding byte_piece
no_piece b j h = omega (arith, words-short j (byte_piece b) h)

tokens-HasPieces : HasPieces tokens types
unfolding token_id
tokens-HasPieces b lt =
    let (id, found) = id_from-known 0 b tokens (byte_piece b) (
      get-pieces 256 0 b words lt
      ∙ ap (λ b. some (byte_piece b)) {x = 0 + b} {y = b} (omega arith)) in
    (
      id,
      found,
      elim (Bool-cases (ltb id 256)) [
        | inl piece ↦ get-replicate 256 id 6 (1 ∷ 1 ∷ []) (ground arith)
        | inr word ↦
            let at = token_id-get tokens (byte_piece b) id tokens-fit found in
            absurd (no_piece b (id - 256) (sym (get-words 256 0 id words (ground arith)) ∙ at))
      ],
    )

-- `h` with two spaces before it, and a letter that only its bytes are known of.
abbrev spaced : Text
spaced = 32 ∷ 104 ∷ 233 ∷ []

abbrev backend : SentencePiece ℕ
backend = record {
  scores = replicate 256 0 ++ 1 ∷ 2 ∷ [];
  token_types = types;
  unknown_id = 0;
  add_space_prefix = true;
}

abbrev left_over : Symbols
left_over = some (space_mark ∷ []) ∷ some (space_mark ∷ 104 ∷ []) ∷ none ∷ some (233 ∷ []) ∷ []

spaced_merges :
    merge_symbols naturals
      (suc (length (symbols_of_chars (normalized_text true spaced))))
      backend.scores
      tokens
      (symbols_of_chars (normalized_text true spaced))
    ≡ some left_over
unfolding merge_symbols SentencePiece.best_sentencepiece_merge SentencePiece.scan_windows
    SentencePiece.live symbols_of_chars normalized_text SentencePiece.replace_char
    SentencePiece.consider token_id Vocabulary.id_from text_eq byte_piece SentencePiece.beats
    SentencePiece.merge_pair
spaced_merges = refl

mark_id : token_id tokens (space_mark ∷ []) ≡ some 256
unfolding token_id Vocabulary.id_from text_eq byte_piece
mark_id = refl

word_id : token_id tokens (space_mark ∷ 104 ∷ []) ≡ some 257
unfolding token_id Vocabulary.id_from text_eq byte_piece
word_id = refl

letter_id : token_id tokens (233 ∷ []) ≡ none
unfolding token_id Vocabulary.id_from text_eq byte_piece
letter_id = refl

word-IsOrdinary :
    (t : Text) (i : ℕ)
    → token_id tokens t ≡ some i
    → get_elem? types i ≡ some 1
    → IsOrdinary tokens types t
word-IsOrdinary t i found at id same =
    (1, ap (get_elem? types) {x = id} {y = i} (some-injective (sym same ∙ found)) ∙ at, refl, refl)

left_over-IsOrdinary : All (IsOrdinary tokens types) (flatten left_over)
left_over-IsOrdinary = (
  word-IsOrdinary (space_mark ∷ []) 256 mark_id refl,
  (word-IsOrdinary (space_mark ∷ 104 ∷ []) 257 word_id refl, ((λ id e. cc (letter_id, e)), tt)),
)

decode_sentencepiece-encode_sentencepiece_example :
    (ids : List ℕ) × (bytes : List ℕ) × (encode_sentencepiece naturals backend tokens spaced
      ≡ some (ok ids))
    × (decode_sentencepiece tokens types ids ≡ some (ok bytes))
    × (without_prefix true bytes ≡ as_bytes spaced)
decode_sentencepiece-encode_sentencepiece_example =
    decode_sentencepiece-encode_sentencepiece naturals backend tokens spaced tokens-fit
      (omega (arith, length-append (pieces_from 256 0) words, length-pieces 256 0)) tokens-HasPieces
      (256, mark_id) ((omega arith, refl), ((omega arith, refl), ((omega arith, refl), tt)))
      (λ symbols same.
        subst (λ s. All (IsOrdinary tokens types) (flatten s))
          (some-injective (sym spaced_merges ∙ same)) left_over-IsOrdinary)
