-- ===== src/Tokenizer/Gpt2/Complete.antt =====
-- When `encode_gpt2` of src/tokenizer/mod.rs succeeds: with a vocabulary that has the symbol of every
-- byte and of every merge.
use project_willamette.Prelude.{
  ℕ, ◌≤◌, ◌<◌, ◌≡◌, refl, sym, ap, ◌∙◌, false, some, List, [], ◌∷◌, ◌++◌, length, concat, All,
  All-of-append,
}
use mathlib.Core.Path.{subst}
use project_willamette.Gguf.Result.{ok}
use project_willamette.Tokenizer.ByteUnicode.{new, encode_byte}
use project_willamette.Tokenizer.ByteUnicode.RoundTrip.{decode_char-encode_byte}
use project_willamette.Tokenizer.Bpe.{MergeRanks, Symbol}
use project_willamette.Tokenizer.Bpe.Merged.{encode_word-Merges, encode_word-All}
use project_willamette.Tokenizer.Pretokenize.Qwen2.{Text}
use project_willamette.Tokenizer.Pretokenize.Lossless.{AreFinders, pretokenize-Chunks}
use project_willamette.Tokenizer.Vocabulary.{as_bytes, as_bytes-bytes, char_end, token_id, u32_mod}
use project_willamette.Tokenizer.Gpt2.{
  Gpt2, is_smol_lm, symbols_of, ids_of, encode_chunk, encode_chunks, encode_gpt2, decode_gpt2,
}
use project_willamette.Tokenizer.Gpt2.RoundTrip.{decode_gpt2-encode_gpt2}

-- A token of the vocabulary.
abbrev pub IsKnown : List Text → Text → Type 0
IsKnown tokens t = (id : ℕ) × (token_id tokens t ≡ some id)

-- The vocabulary has the symbol of every byte and what every merge makes.
pub record IsComplete (tokens : List Text) (ranks : MergeRanks) : Type 0 where
  pub bytes : (b c : ℕ) → b < 256 → encode_byte new b ≡ some c → IsKnown tokens (c ∷ [])
  pub merges : (s t : Symbol) (rank : ℕ) → ranks s t ≡ some rank → IsKnown tokens (s ++ t)

symbols-IsKnown :
    (tokens : List Text)
    → ((b c : ℕ) → b < 256 → encode_byte new b ≡ some c → IsKnown tokens (c ∷ []))
    → (bs : List ℕ) → All (λ b. b < 256) bs
    → (symbols : List Symbol) × (symbols_of new bs ≡ some symbols) × All (IsKnown tokens) symbols
unfolding symbols_of
symbols-IsKnown tokens known [] h = ([], refl, tt)
symbols-IsKnown tokens known (b ∷ bs) h =
    let (c, coded, _) = decode_char-encode_byte b h.0 in
    let (rest, rest_ok, rest_known) = symbols-IsKnown tokens known bs h.1 in
    ((c ∷ []) ∷ rest, rw (symbols_of, coded, rest_ok) refl, (known b c h.0 coded, rest_known))

ids_of-known :
    (backend : Gpt2) (tokens : List Text) (ts : List Symbol)
    → All (IsKnown tokens) ts
    → (ids : List ℕ) × (ids_of backend tokens ts ≡ ok ids)
unfolding ids_of
ids_of-known backend tokens [] h = ([], refl)
ids_of-known backend tokens (t ∷ ts) ((id, found), h) =
    let (rest, rest_ok) = ids_of-known backend tokens ts h in
    (id ∷ rest, rw (ids_of, found, rest_ok) refl)

module _ (backend : Gpt2) (tokens : List Text) (table : backend.byte_unicode ≡ new)
    (complete : IsComplete tokens backend.ranks) where
  encode_chunk-known :
      (chunk : Text)
      → All (λ c. c < char_end) chunk
      → (ids : List ℕ) × (encode_chunk backend tokens chunk ≡ some (ok ids))
  unfolding encode_chunk
  encode_chunk-known chunk chars =
      let (symbols, symbols_ok, known) =
        symbols-IsKnown tokens complete.bytes (as_bytes chunk) (as_bytes-bytes chunk chars) in
      let (merged, merged_ok, _, _, _) = encode_word-Merges backend.ranks symbols in
      let (ids, ids_ok) = ids_of-known backend tokens merged (
        encode_word-All (IsKnown tokens) backend.ranks complete.merges symbols merged merged_ok
          known) in
      (
        ids,
        rw (encode_chunk, ap (λ t. symbols_of t (as_bytes chunk)) table ∙ symbols_ok, merged_ok)
            (ap some ids_ok),
      )

  encode_chunks-known :
      (chunks : List Text)
      → All (λ c. c < char_end) (concat chunks)
      → (ids : List ℕ) × (encode_chunks backend tokens chunks ≡ some (ok ids))
  unfolding encode_chunks
  encode_chunks-known [] chars = ([], refl)
  encode_chunks-known (c ∷ cs) chars =
      let (c_chars, cs_chars) = All-of-append (λ c. c < char_end) c (concat cs) chars in
      let (xs, xs_ok) = encode_chunk-known c c_chars in
      let (ys, ys_ok) = encode_chunks-known cs cs_chars in
      (xs ++ ys, rw (encode_chunks, xs_ok, ys_ok) refl)

-- With a vocabulary of at most 2 ^ 32 tokens that has the symbol of every byte and what every merge
-- makes, a pre-tokenizer that is not SmolLM's, the table of `ByteUnicode::new` and expressions that find
-- matches in order, none of them empty: `encode_gpt2` gives ids for every text of characters, without an
-- error or a panic, and the ids decode to the bytes of the text.
pub encode_gpt2-IsComplete :
    (backend : Gpt2) (tokens : List Text) (text : Text)
    → IsComplete tokens backend.ranks
    → length tokens ≤ u32_mod
    → is_smol_lm backend.pretokenizer ≡ false
    → backend.byte_unicode ≡ new
    → AreFinders backend.regexes
    → All (λ c. c < char_end) text
    → (ids : List ℕ) × (encode_gpt2 backend tokens text ≡ some (ok ids))
      × (decode_gpt2 backend.byte_unicode tokens ids ≡ ok (as_bytes text))
unfolding encode_gpt2
encode_gpt2-IsComplete backend tokens text complete fit plain table finds chars =
    let (chunks, chunks_ok, spelled, _) =
      pretokenize-Chunks backend.regexes backend.is_whitespace backend.pretokenizer text finds in
    let (ids, ids_ok) =
      encode_chunks-known backend tokens table complete chunks
        (subst (All (λ c. c < char_end)) (sym spelled) chars) in
    let encoded : encode_gpt2 backend tokens text ≡ some (ok ids) =
      rw (encode_gpt2, chunks_ok) ids_ok in
    (
      ids,
      encoded,
      decode_gpt2-encode_gpt2 backend tokens text ids fit plain table finds chars encoded,
    )
