-- ===== src/Tokenizer/SentencePiece/RoundTrip.antt =====
-- What the SentencePiece backend of src/tokenizer/mod.rs encodes, it decodes to the bytes of the text.
use project_willamette.Prelude.{
  ℕ, suc, ◌+◌, ◌*◌, ◌/◌, ◌%◌, ◌≤◌, ◌<◌, ◌≡◌, ◌⊎◌, refl, sym, ap, ◌∙◌, arith, Bool, true, false,
  Option, none, some, List, [], ◌∷◌, ◌++◌, length, concat, get_elem?, All, ◌==◌, ==_iff,
  if◌then◌else◌, Bool-cases, Option-cases, inl, inr,
}
use mathlib.Core.Path.{subst}
use mathlib.Core.List.{append_assoc, append-nil}
use project_willamette.Gguf.Result.{ok}
use project_willamette.Gguf.Outcome
use project_willamette.Gguf.Outcome.{unless_panic, >>=-eq-pure}
use project_willamette.Sampling.State.{Floats}
use project_willamette.Tokenizer.Bpe.Merged.{some-injective}
use project_willamette.Tokenizer.Pretokenize.Qwen2.{Text}
use project_willamette.Tokenizer.Vocabulary.{
  as_bytes, utf8_char, as_bytes-append, as_bytes-bytes, char_end, token_id, token_id-get, u32_mod,
}
use project_willamette.Tokenizer.Gpt2.Complete.{IsKnown}
use project_willamette.Tokenizer.SentencePiece.{
  SentencePiece, Symbols, replace_char, space_mark, normalized_text, symbols_of_chars,
  merge_symbols, hex_digit, byte_piece, unwrap_id, fallback_ids, emit_sentencepiece_symbol,
  emit_all, is_empty_text, encode_sentencepiece, digit_value, hex_pair, parse_byte_piece,
  piece_bytes, decode_sentencepiece, without_prefix,
}
use project_willamette.Tokenizer.SentencePiece.Merging.{flatten, merge_symbols-Merged}

replace_char-append :
    (a b : ℕ) (s t : Text) → replace_char a b (s ++ t) ≡ replace_char a b s ++ replace_char a b t
unfolding replace_char
replace_char-append a b [] t = refl
replace_char-append a b (c ∷ s) t =
    ap (λ r. (if c == a then b else c) ∷ r) (replace_char-append a b s t)

-- A text without the mark.
abbrev pub IsUnmarked : Text → Type 0
IsUnmarked s = All (λ c. (c < char_end) × ((c == space_mark) ≡ false)) s

replace_char-unmarked : (s : Text) → IsUnmarked s → replace_char space_mark 32 s ≡ s
unfolding replace_char
replace_char-unmarked [] h = refl
replace_char-unmarked (c ∷ s) h = rw h.0.1 (ap (λ r. c ∷ r) (replace_char-unmarked s h.1))

replace_char-back :
    (s : Text) → IsUnmarked s → replace_char space_mark 32 (replace_char 32 space_mark s) ≡ s
unfolding replace_char
replace_char-back [] h = refl
replace_char-back (c ∷ s) h = elim (Bool-cases (c == 32)) [
  | inl space ↦
      rw space
        (ap (λ r. 32 ∷ r) (replace_char-back s h.1) ∙ ap (λ d. d ∷ s) (sym ((==_iff c 32).0 space)))
  | inr other ↦ rw (other, h.0.1) (ap (λ r. c ∷ r) (replace_char-back s h.1))
]

hex_digit-value : (d : ℕ) → d < 16 → digit_value (hex_digit d) ≡ some d
unfolding digit_value hex_digit
hex_digit-value d h = ground arith

hex_digit-sign : (d : ℕ) → (hex_digit d == 43) ≡ false
unfolding hex_digit
hex_digit-sign d = ground arith

byte_piece-parse : (b : ℕ) → b < 256 → parse_byte_piece (byte_piece b) ≡ some b
unfolding parse_byte_piece byte_piece hex_pair
byte_piece-parse b h =
    rw
      (
        hex_digit-sign (b / 16),
        hex_digit-value (b / 16) (omega arith),
        hex_digit-value (b % 16) (omega arith),
      )
      (ap some {x = b / 16 * 16 + b % 16} {y = b} (omega arith))

-- The vocabulary has a piece of type 6 for each byte.
abbrev pub HasPieces : List Text → List ℕ → Type 0
HasPieces tokens types =
    (b : ℕ)
    → b < 256
    → (id : ℕ) × (token_id tokens (byte_piece b) ≡ some id) × (get_elem? types id ≡ some 6)

-- A symbol that is not a token of control or of a byte.
abbrev pub IsOrdinary : List Text → List ℕ → Text → Type 0
IsOrdinary tokens types s =
    (id : ℕ)
    → token_id tokens s ≡ some id
    → (t : ℕ) × (get_elem? types id ≡ some t) × ((t == 3) ≡ false) × ((t == 6) ≡ false)

-- A symbol that decodes: a token, or a text without the mark.
abbrev Settled : List Text → Text → Type 0
Settled tokens s = IsKnown tokens s ⊎ IsUnmarked s

module _ (tokens : List Text) (types : List ℕ) (fit : length tokens ≤ u32_mod)
    (pieces : HasPieces tokens types) where
  abbrev Decodes : List ℕ → List ℕ → Type 0
  Decodes ids bs = decode_sentencepiece tokens types ids ≡ some (ok bs)

  decode-step :
      (id : ℕ) (ids : List ℕ) (token : Text) (t : ℕ) (bs rest : List ℕ)
      → get_elem? tokens id ≡ some token
      → get_elem? types id ≡ some t
      → piece_bytes token t ≡ ok bs
      → Decodes ids rest
      → Decodes (id ∷ ids) (bs ++ rest)
  unfolding decode_sentencepiece
  decode-step id ids token t bs rest at type_at own later =
      rw (decode_sentencepiece, at, type_at, own, later) refl

  decode-append :
      (ids jds xs ys : List ℕ) → Decodes ids xs → Decodes jds ys → Decodes (ids ++ jds) (xs ++ ys)
  unfolding decode_sentencepiece
  decode-append [] jds xs ys h k = subst (λ xs. Decodes jds (xs ++ ys)) (nothing h) k
    where
      nothing : {xs : List ℕ} → some (ok []) ≡ some (ok xs) → [] ≡ xs
      nothing p = cc
  decode-append (id ∷ ids) jds xs ys h k = elim (Option-cases (get_elem? tokens id)) [
    | inl missing ↦ cc (rw (decode_sentencepiece, missing) at h)
    | inr (token, at) ↦
        let (t, t_ok, h1) =
          >>=-eq-pure (unless_panic (get_elem? types id)) _ (rw (decode_sentencepiece, at) at h) in
        let (own, own_ok, h2) = >>=-eq-pure (some (piece_bytes token t)) _ h1 in
        let (rest, rest_ok, eq) =
          >>=-eq-pure (decode_sentencepiece tokens types ids) (λ rest. Outcome.pure (own ++ rest))
            h2 in
        decode-step id (ids ++ jds) token t own (rest ++ ys) at (there (get_elem? types id) t t_ok)
          (some-injective own_ok) (decode-append ids jds rest ys rest_ok k)
        ∙ ap (λ l. some (ok l)) (sym (append_assoc own rest ys))
        ∙ ap (λ l. some (ok (l ++ ys))) (same eq)
  ]
    where
      there : (o : Option ℕ) (t : ℕ) → unless_panic o ≡ some (ok t) → o ≡ some t
      there none t p = cc
      there (some u) t p = cc

      same : {l m : List ℕ} → some (ok l) ≡ some (ok m) → l ≡ m
      same p = cc

  fallback-Decodes :
      (unknown : ℕ) (bs : List ℕ)
      → All (λ b. b < 256) bs
      → Decodes (fallback_ids unknown tokens bs) bs
  unfolding fallback_ids unwrap_id piece_bytes decode_sentencepiece
  fallback-Decodes unknown [] h = refl
  fallback-Decodes unknown (b ∷ bs) h =
      let (id, found, type_at) = pieces b h.0 in
      rw (fallback_ids, found)
        (decode-step id (fallback_ids unknown tokens bs) (byte_piece b) 6 (b ∷ []) bs
          (token_id-get tokens (byte_piece b) id fit found) type_at
          (rw (piece_bytes, byte_piece-parse b h.0) refl) (fallback-Decodes unknown bs h.1))

  unmarked_chars : (s : Text) → IsUnmarked s → All (λ c. c < char_end) s
  unmarked_chars [] h = tt
  unmarked_chars (c ∷ s) h = (h.0.0, unmarked_chars s h.1)

  known-Decodes :
      (unknown : ℕ) (s : Text) (id : ℕ)
      → token_id tokens s ≡ some id
      → IsOrdinary tokens types s
      → Decodes
          (emit_sentencepiece_symbol unknown tokens s)
          (as_bytes (replace_char space_mark 32 s))
  unfolding emit_sentencepiece_symbol piece_bytes decode_sentencepiece
  known-Decodes unknown s id found ordinary =
      let (t, type_at, not_control, not_byte) = ordinary id found in
      rw (emit_sentencepiece_symbol, found)
        (decode-step id [] s t (as_bytes (replace_char space_mark 32 s)) []
            (token_id-get tokens s id fit found) type_at
            (rw (piece_bytes, not_control, not_byte) refl) refl
          ∙ ap (λ l. some (ok l)) (append-nil (as_bytes (replace_char space_mark 32 s))))

  emit-Decodes :
      (unknown : ℕ) (s : Text)
      → IsOrdinary tokens types s
      → Settled tokens s
      → Decodes
          (emit_sentencepiece_symbol unknown tokens s)
          (as_bytes (replace_char space_mark 32 s))
  unfolding emit_sentencepiece_symbol
  emit-Decodes unknown s ordinary (inl (id, found)) = known-Decodes unknown s id found ordinary
  emit-Decodes unknown s ordinary (inr unmarked) = elim (Option-cases (token_id tokens s)) [
    | inr (id, found) ↦ known-Decodes unknown s id found ordinary
    | inl missing ↦
        rw (emit_sentencepiece_symbol, missing, replace_char-unmarked s unmarked)
          (fallback-Decodes unknown (as_bytes s) (as_bytes-bytes s (unmarked_chars s unmarked)))
  ]

  emit_all-Decodes :
      (unknown : ℕ) (symbols : Symbols)
      → All (IsOrdinary tokens types) (flatten symbols)
      → All (Settled tokens) (flatten symbols)
      → Decodes
          (emit_all unknown tokens symbols)
          (as_bytes (replace_char space_mark 32 (concat (flatten symbols))))
  unfolding emit_all decode_sentencepiece as_bytes replace_char
  emit_all-Decodes unknown [] o h = refl
  emit_all-Decodes unknown (none ∷ symbols) o h = emit_all-Decodes unknown symbols o h
  emit_all-Decodes unknown (some s ∷ symbols) o h =
      decode-append (emit_sentencepiece_symbol unknown tokens s) (emit_all unknown tokens symbols) _
        _ (emit-Decodes unknown s o.0 h.0) (emit_all-Decodes unknown symbols o.1 h.1)
      ∙ ap (λ l. some (ok l))
          (sym (
              as_bytes-append (replace_char space_mark 32 s)
                (replace_char space_mark 32 (concat (flatten symbols))))
            ∙ ap as_bytes (sym (replace_char-append space_mark 32 s (concat (flatten symbols)))))

-- The characters of a text with its spaces marked are settled, if the mark is a token.
marked-Settled :
    (tokens : List Text) (s : Text)
    → IsKnown tokens (space_mark ∷ [])
    → IsUnmarked s
    → All (Settled tokens) (flatten (symbols_of_chars (replace_char 32 space_mark s)))
unfolding symbols_of_chars replace_char
marked-Settled tokens [] known h = tt
marked-Settled tokens (c ∷ s) known h = elim (Bool-cases (c == 32)) [
  | inl space ↦ rw space (inl known, marked-Settled tokens s known h.1)
  | inr other ↦ rw other (inr (h.0, tt), marked-Settled tokens s known h.1)
]

concat-symbols_of_chars : (s : Text) → concat (flatten (symbols_of_chars s)) ≡ s
unfolding symbols_of_chars
concat-symbols_of_chars [] = refl
concat-symbols_of_chars (c ∷ s) = ap (λ r. c ∷ r) (concat-symbols_of_chars s)

length-symbols_of_chars :
    (s : Text) → length (flatten (symbols_of_chars s)) ≡ length (symbols_of_chars s)
unfolding symbols_of_chars
length-symbols_of_chars [] = refl
length-symbols_of_chars (c ∷ s) = ap suc (length-symbols_of_chars s)

-- The text as it is marked, with the space that may be added.
abbrev prefixed : Bool → Text → Text
prefixed add_space_prefix s = if add_space_prefix then 32 ∷ s else s

prefixed-IsUnmarked :
    (add_space_prefix : Bool) (s : Text) → IsUnmarked s → IsUnmarked (prefixed add_space_prefix s)
prefixed-IsUnmarked true s h = ((omega arith, refl), h)
prefixed-IsUnmarked false s h = h

prefix-removed :
    (add_space_prefix : Bool) (s : Text)
    → without_prefix add_space_prefix (as_bytes (prefixed add_space_prefix s)) ≡ as_bytes s
unfolding without_prefix as_bytes utf8_char
prefix-removed true s = refl
prefix-removed false s = kept (as_bytes s)
  where
    kept : (bs : List ℕ) → without_prefix false bs ≡ bs
    kept [] = refl
    kept (b ∷ bs) = refl

-- If the vocabulary has at most 2 ^ 32 tokens, with a score for each, a piece of type 6 for each byte and
-- the mark of a space, the text has characters without the mark, and none of the symbols that the
-- merges leave is a token of control or of a byte: the text is encoded without an error or a panic,
-- the ids decode, and without the space that was added in front, the bytes are those of the text.
pub decode_sentencepiece-encode_sentencepiece :
    {F : Type 0} (f : Floats F) (backend : SentencePiece F) (tokens : List Text) (text : Text)
    → length tokens ≤ u32_mod
    → length tokens ≤ length backend.scores
    → HasPieces tokens backend.token_types
    → IsKnown tokens (space_mark ∷ [])
    → IsUnmarked text
    → ((symbols : Symbols)
        → merge_symbols f
            (suc (length (symbols_of_chars (normalized_text backend.add_space_prefix text))))
            backend.scores
            tokens
            (symbols_of_chars (normalized_text backend.add_space_prefix text))
          ≡ some symbols
        → All (IsOrdinary tokens backend.token_types) (flatten symbols))
    → (ids : List ℕ) × (bytes : List ℕ) × (encode_sentencepiece f backend tokens text
        ≡ some (ok ids))
      × (decode_sentencepiece tokens backend.token_types ids ≡ some (ok bytes))
      × (without_prefix backend.add_space_prefix bytes ≡ as_bytes text)
unfolding encode_sentencepiece normalized_text is_empty_text decode_sentencepiece without_prefix
    as_bytes
decode_sentencepiece-encode_sentencepiece f backend tokens [] fit scored pieces mark unmarked
      ordinary =
    ([], [], refl, refl, refl)
decode_sentencepiece-encode_sentencepiece f backend tokens (c ∷ s) fit scored pieces mark unmarked
      ordinary =
    let add : Bool = backend.add_space_prefix in
    let text : Text = prefixed add (c ∷ s) in
    let plain = prefixed-IsUnmarked add (c ∷ s) unmarked in
    let symbols : Symbols = symbols_of_chars (replace_char 32 space_mark text) in
    let (merged, merged_ok, spelled, keeps) =
      merge_symbols-Merged f backend.scores tokens fit scored (suc (length symbols)) symbols
        (omega (arith, length-symbols_of_chars (replace_char 32 space_mark text))) in
    let settled =
      keeps (Settled tokens) (marked-Settled tokens text mark plain) (λ u known. inl known) in
    (
      emit_all backend.unknown_id tokens merged,
      as_bytes text,
      rw merged_ok refl,
      emit_all-Decodes tokens backend.token_types fit pieces backend.unknown_id merged
            (ordinary merged merged_ok) settled
          ∙ ap (λ t. some (ok (as_bytes (replace_char space_mark 32 t))))
              (spelled ∙ concat-symbols_of_chars (replace_char 32 space_mark text))
          ∙ ap (λ t. some (ok (as_bytes t))) (replace_char-back text plain),
      prefix-removed add (c ∷ s),
    )
