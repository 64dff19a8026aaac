-- ===== src/Tokenizer/Gpt2.antt =====
-- The GPT-2 backend of src/tokenizer/mod.rs: `encode_gpt2` and its part of `decode_to_bytes`.
pub mod RoundTrip
pub mod Complete
use project_willamette.Prelude.{
  ℕ, zero, suc, ◌+◌, Bool, true, false, ◌&&◌, Option, none, some, List, [], ◌∷◌, ◌++◌, get_elem?,
  ◌==◌, if◌then◌else◌,
}
use project_willamette.Gguf.Result.{
  Result, ok, err, ◌>>=◌, unsupported_tokenizer, token_range, no_inverse, missing_symbol,
}
use project_willamette.Gguf.Outcome
use project_willamette.Gguf.Outcome.{Outcome, unless_panic}
use project_willamette.Tokenizer.ByteUnicode.{ByteUnicode, encode_byte, decode_char}
use project_willamette.Tokenizer.Bpe.{MergeRanks, Symbol, encode_word}
use project_willamette.Tokenizer.Pretokenize.Qwen2.{Text}
use project_willamette.Tokenizer.Pretokenize.{Regexes, Gpt2PreTokenizer, smol_lm, pretokenize}
use project_willamette.Tokenizer.Vocabulary.{as_bytes, token_id}

-- SMOLLM_ALLOWED_MISSING_BYTES
abbrev pub smollm_allowed_missing_bytes : List ℕ
smollm_allowed_missing_bytes =
    0x04 ∷ 0x06 ∷ 0x13 ∷ 0x14 ∷ 0x16 ∷ 0x1d ∷ 0xc0 ∷ 0xc1 ∷ 0xf1 ∷ 0xf2 ∷ 0xf5 ∷ 0xf6 ∷ 0xf7 ∷ 0xf8
    ∷ 0xf9 ∷ 0xfa ∷ 0xfb ∷ 0xfc ∷ 0xfd ∷ 0xfe ∷ 0xff ∷ []

unfoldable pub contains_byte : List ℕ → ℕ → Bool
contains_byte [] b = false
contains_byte (x ∷ xs) b = let rest = contains_byte xs b in if x == b then true else rest

unfoldable pub smollm_may_omit_byte : ℕ → Bool
smollm_may_omit_byte b = contains_byte smollm_allowed_missing_bytes b

-- The fields of `TokenizerBackend::Gpt2`, and what the code takes from the regex crate and `char`.
pub record Gpt2 : Type 0 where
  pub byte_unicode : ByteUnicode
  pub ranks : MergeRanks
  pub pretokenizer : Gpt2PreTokenizer
  pub regexes : Regexes
  pub is_whitespace : ℕ → Bool

abbrev pub is_smol_lm : Gpt2PreTokenizer → Bool
is_smol_lm smol_lm = true
is_smol_lm _ = false

-- `byte_unicode.encode_byte(byte).to_string()` for each byte.
unfoldable pub symbols_of : ByteUnicode → List ℕ → Option (List Symbol)
symbols_of table [] = some []
symbols_of table (b ∷ bs) = elim (encode_byte table b) [
  | none ↦ none
  | some c ↦ elim (symbols_of table bs) [ none ↦ none | some rest ↦ some ((c ∷ []) ∷ rest) ]
]

-- A symbol of one character, whose byte SmolLM's vocabulary leaves out.
unfoldable pub tolerated_omission : Gpt2 → Text → Bool
tolerated_omission backend (c ∷ []) =
    is_smol_lm backend.pretokenizer
    && elim (decode_char backend.byte_unicode c) [ none ↦ false | some b ↦ smollm_may_omit_byte b ]
tolerated_omission backend _ = false

-- The ids that the inner loop pushes for the symbols of a chunk.
unfoldable pub ids_of : Gpt2 → List Text → List Symbol → Result (List ℕ)
ids_of backend tokens [] = ok []
ids_of backend tokens (t ∷ ts) =
    let rest = ids_of backend tokens ts in
    elim (token_id tokens t) [
      | some id ↦ (do ids ← rest; ok (id ∷ ids))
      | none ↦
          if tolerated_omission backend t then rest else err (unsupported_tokenizer missing_symbol)
    ]

-- The ids for one chunk.
unfoldable pub encode_chunk : Gpt2 → List Text → Text → Outcome (List ℕ)
encode_chunk backend tokens chunk = elim (symbols_of backend.byte_unicode (as_bytes chunk)) [
  | none ↦ none
  | some symbols ↦ elim (encode_word backend.ranks symbols) [
    | none ↦ none
    | some merged ↦ some (ids_of backend tokens merged)
  ]
]

unfoldable pub encode_chunks : Gpt2 → List Text → List Text → Outcome (List ℕ)
encode_chunks backend tokens [] = Outcome.pure []
encode_chunks backend tokens (chunk ∷ chunks) =
    Outcome.◌>>=◌ (encode_chunk backend tokens chunk)
      λ ids. Outcome.◌>>=◌ (encode_chunks backend tokens chunks) λ rest. Outcome.pure (ids ++ rest)

-- What `encode_gpt2` appends to the ids.
unfoldable pub encode_gpt2 : Gpt2 → List Text → Text → Outcome (List ℕ)
encode_gpt2 backend tokens text =
    elim (pretokenize backend.regexes backend.is_whitespace backend.pretokenizer text) [
      | none ↦ none
      | some chunks ↦ encode_chunks backend tokens chunks
    ]

-- The bytes of a token, one for each of its characters.
unfoldable pub bytes_of_token : ByteUnicode → Text → Result (List ℕ)
bytes_of_token table [] = ok []
bytes_of_token table (c ∷ s) =
    let rest = bytes_of_token table s in
    elim (decode_char table c) [
      | none ↦ err (unsupported_tokenizer no_inverse)
      | some b ↦ (do bs ← rest; ok (b ∷ bs))
    ]

unfoldable pub decode_gpt2 : ByteUnicode → List Text → List ℕ → Result (List ℕ)
decode_gpt2 table tokens [] = ok []
decode_gpt2 table tokens (id ∷ ids) =
    let later = decode_gpt2 table tokens ids in
    elim (get_elem? tokens id) [
      | none ↦ err (unsupported_tokenizer token_range)
      | some t ↦ (do bytes ← bytes_of_token table t; rest ← later; ok (bytes ++ rest))
    ]
