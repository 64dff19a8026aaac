-- ===== src/Tokenizer/Gpt2/RoundTrip.antt =====
-- What the GPT-2 backend of src/tokenizer/mod.rs encodes, it decodes to the bytes of the text.
use project_willamette.Prelude.{
  ℕ, ◌≤◌, ◌<◌, ◌≡◌, refl, sym, ap, ◌∙◌, false, some, List, [], ◌∷◌, ◌++◌, get_elem?, length, concat,
  All, All-of-append, Option-cases, inl, inr,
}
use mathlib.Core.Path.{subst}
use mathlib.Core.List.{append_assoc}
use project_willamette.Gguf.Result.{ok, >>=-eq-ok}
use project_willamette.Gguf.Outcome
use project_willamette.Gguf.Outcome.{Outcome, >>=-eq-pure}
use project_willamette.Gguf.Views.Checked.{ok-injective}
use project_willamette.Tokenizer.ByteUnicode.{ByteUnicode, new, decode_char}
use project_willamette.Tokenizer.ByteUnicode.RoundTrip.{decode_char-encode_byte}
use project_willamette.Tokenizer.Bpe.{Symbol}
use project_willamette.Tokenizer.Bpe.Merged.{some-injective, encode_word-Merges}
use project_willamette.Tokenizer.Pretokenize.Qwen2.{Text}
use project_willamette.Tokenizer.Pretokenize.Lossless.{AreFinders, pretokenize-Chunks}
use project_willamette.Tokenizer.Vocabulary.{
  as_bytes, as_bytes-append, as_bytes-bytes, char_end, token_id, token_id-get, u32_mod,
}
use project_willamette.Tokenizer.Gpt2.{
  Gpt2, is_smol_lm, symbols_of, tolerated_omission, ids_of, encode_chunk, encode_chunks,
  encode_gpt2, bytes_of_token, decode_gpt2,
}

-- The bytes of a text in two parts are those of the parts.
bytes_of-append :
    (table : ByteUnicode) (s t : Text) (bs : List ℕ)
    → bytes_of_token table (s ++ t) ≡ ok bs
    → (as' : List ℕ) × (cs : List ℕ) × (bytes_of_token table s ≡ ok as')
      × (bytes_of_token table t ≡ ok cs)
      × (bs ≡ as' ++ cs)
unfolding bytes_of_token
bytes_of-append table [] t bs h = ([], bs, refl, h, refl)
bytes_of-append table (c ∷ s) t bs h = elim (Option-cases (decode_char table c)) [
  | inl missing ↦ cc (rw (bytes_of_token, missing) at h)
  | inr (b, found) ↦
      let (rest, rest_ok, eq) =
        >>=-eq-ok (bytes_of_token table (s ++ t)) (λ bs. ok (b ∷ bs))
          (rw (bytes_of_token, found) at h) in
      let (xs, ys, xs_ok, ys_ok, split) = bytes_of-append table s t rest rest_ok in
      (
        b ∷ xs,
        ys,
        rw (bytes_of_token, found, xs_ok) refl,
        ys_ok,
        ok-injective eq ∙ ap (λ r. b ∷ r) split,
      )
]

not_tolerated :
    (backend : Gpt2) (t : Text)
    → is_smol_lm backend.pretokenizer ≡ false
    → tolerated_omission backend t ≡ false
unfolding tolerated_omission
not_tolerated backend [] plain = refl
not_tolerated backend (c ∷ []) plain = rw plain refl
not_tolerated backend (c ∷ d ∷ s) plain = refl

-- Ids for symbols that are all in the vocabulary decode to the bytes of the symbols.
decode-ids_of :
    (backend : Gpt2) (tokens : List Text) (ts : List Symbol) (ids bs : List ℕ)
    → length tokens ≤ u32_mod
    → is_smol_lm backend.pretokenizer ≡ false
    → ids_of backend tokens ts ≡ ok ids
    → bytes_of_token backend.byte_unicode (concat ts) ≡ ok bs
    → decode_gpt2 backend.byte_unicode tokens ids ≡ ok bs
unfolding ids_of decode_gpt2 bytes_of_token
decode-ids_of backend tokens [] ids bs fit plain h k =
    subst (λ ids. decode_gpt2 backend.byte_unicode tokens ids ≡ ok bs) (sym (ok-injective h)) k
decode-ids_of backend tokens (t ∷ ts) ids bs fit plain h k =
    elim (Option-cases (token_id tokens t)) [
      | inl missing ↦ cc (rw (ids_of, missing, not_tolerated backend t plain) at h)
      | inr (id, found) ↦
          let (rest, rest_ok, eq) =
            >>=-eq-ok (ids_of backend tokens ts) (λ ids. ok (id ∷ ids)) (rw (ids_of, found) at h) in
          let (xs, ys, xs_ok, ys_ok, split) =
            bytes_of-append backend.byte_unicode t (concat ts) bs k in
          let later = decode-ids_of backend tokens ts rest ys fit plain rest_ok ys_ok in
          subst (λ ids. decode_gpt2 backend.byte_unicode tokens ids ≡ ok bs) (sym (ok-injective eq))
            (rw (decode_gpt2, token_id-get tokens t id fit found, xs_ok, later) (ap ok (sym split)))
    ]

-- A run of ids after another decodes to the one text after the other.
pub decode-append :
    (table : ByteUnicode) (tokens : List Text) (ids jds : List ℕ) (xs ys : List ℕ)
    → decode_gpt2 table tokens ids ≡ ok xs
    → decode_gpt2 table tokens jds ≡ ok ys
    → decode_gpt2 table tokens (ids ++ jds) ≡ ok (xs ++ ys)
unfolding decode_gpt2
decode-append table tokens [] jds xs ys h k =
    subst (λ xs. decode_gpt2 table tokens jds ≡ ok (xs ++ ys)) (sym (ok-injective h)) k
decode-append table tokens (id ∷ ids) jds xs ys h k = elim (Option-cases (get_elem? tokens id)) [
  | inl missing ↦ cc (rw (decode_gpt2, missing) at h)
  | inr (t, found) ↦
      let (bs, bs_ok, h1) = >>=-eq-ok (bytes_of_token table t) _ (rw (decode_gpt2, found) at h) in
      let (rest, rest_ok, eq) =
        >>=-eq-ok (decode_gpt2 table tokens ids) (λ rest. ok (bs ++ rest)) h1 in
      rw (decode_gpt2, found, bs_ok, decode-append table tokens ids jds rest ys rest_ok k)
        (ap ok (sym (append_assoc bs rest ys) ∙ ap (λ t. t ++ ys) (sym (ok-injective eq))))
]

-- The symbols of bytes, and the bytes of the symbols.
symbols-bytes :
    (bs : List ℕ)
    → All (λ b. b < 256) bs
    → (symbols : List Symbol) × (symbols_of new bs ≡ some symbols)
      × (bytes_of_token new (concat symbols) ≡ ok bs)
unfolding symbols_of bytes_of_token
symbols-bytes [] h = ([], refl, refl)
symbols-bytes (b ∷ bs) h =
    let (c, coded, back) = decode_char-encode_byte b h.0 in
    let (rest, rest_ok, rest_back) = symbols-bytes bs h.1 in
    (
      (c ∷ []) ∷ rest,
      rw (symbols_of, coded, rest_ok) refl,
      rw (bytes_of_token, back, rest_back) refl,
    )

-- What the parts of a text give decodes to their bytes.
module _ (backend : Gpt2) (tokens : List Text) (fit : length tokens ≤ u32_mod)
    (plain : is_smol_lm backend.pretokenizer ≡ false) (table : backend.byte_unicode ≡ new) where
  decode-encode_chunk :
      (chunk : Text) (ids : List ℕ)
      → All (λ c. c < char_end) chunk
      → encode_chunk backend tokens chunk ≡ some (ok ids)
      → decode_gpt2 backend.byte_unicode tokens ids ≡ ok (as_bytes chunk)
  unfolding encode_chunk
  decode-encode_chunk chunk ids chars h =
      let (symbols, symbols_ok, back) =
        symbols-bytes (as_bytes chunk) (as_bytes-bytes chunk chars) in
      let (merged, merged_ok, text, _, _) = encode_word-Merges backend.ranks symbols in
      let found : ids_of backend tokens merged ≡ ok ids =
        some-injective (rw (encode_chunk, table, symbols_ok, merged_ok) at h) in
      decode-ids_of backend tokens merged ids (as_bytes chunk) fit plain found (
        ap (bytes_of_token backend.byte_unicode) text
        ∙ ap (λ t. bytes_of_token t (concat symbols)) table
        ∙ back)

  decode-encode_chunks :
      (chunks : List Text) (ids : List ℕ)
      → All (λ c. c < char_end) (concat chunks)
      → encode_chunks backend tokens chunks ≡ some (ok ids)
      → decode_gpt2 backend.byte_unicode tokens ids ≡ ok (as_bytes (concat chunks))
  unfolding encode_chunks decode_gpt2 as_bytes
  decode-encode_chunks [] ids chars h =
      subst (λ ids. decode_gpt2 backend.byte_unicode tokens ids ≡ ok (as_bytes []))
        (sym (ok-injective (some-injective h))) refl
  decode-encode_chunks (c ∷ cs) ids chars h =
      let (c_chars, cs_chars) = All-of-append (λ c. c < char_end) c (concat cs) chars in
      let (xs, xs_ok, h1) = >>=-eq-pure (encode_chunk backend tokens c) _ h in
      let (ys, ys_ok, eq) =
        >>=-eq-pure (encode_chunks backend tokens cs) (λ rest. Outcome.pure (xs ++ rest)) h1 in
      subst (λ ids. decode_gpt2 backend.byte_unicode tokens ids ≡ ok (as_bytes (c ++ concat cs)))
        (sym (ok-injective (some-injective eq)))
        (decode-append backend.byte_unicode tokens xs ys _ _
            (decode-encode_chunk c xs c_chars xs_ok) (decode-encode_chunks cs ys cs_chars ys_ok)
          ∙ ap ok (sym (as_bytes-append c (concat cs))))

-- If the vocabulary has at most 2 ^ 32 tokens, the pre-tokenizer is not SmolLM's, the table is the one
-- that `ByteUnicode::new` builds, the expressions find matches in order and none of them empty, and the
-- text is of characters, then the ids that `encode_gpt2` gives for the text decode to its bytes.
pub decode_gpt2-encode_gpt2 :
    (backend : Gpt2) (tokens : List Text) (text : Text) (ids : List ℕ)
    → length tokens ≤ u32_mod
    → is_smol_lm backend.pretokenizer ≡ false
    → backend.byte_unicode ≡ new
    → AreFinders backend.regexes
    → All (λ c. c < char_end) text
    → encode_gpt2 backend tokens text ≡ some (ok ids)
    → decode_gpt2 backend.byte_unicode tokens ids ≡ ok (as_bytes text)
unfolding encode_gpt2
decode_gpt2-encode_gpt2 backend tokens text ids fit plain table finds chars h =
    let (chunks, chunks_ok, spelled, _) =
      pretokenize-Chunks backend.regexes backend.is_whitespace backend.pretokenizer text finds in
    decode-encode_chunks backend tokens fit plain table chunks ids
      (subst (All (λ c. c < char_end)) (sym spelled) chars) (rw (encode_gpt2, chunks_ok) at h)
    ∙ ap (λ t. ok (as_bytes t)) spelled
