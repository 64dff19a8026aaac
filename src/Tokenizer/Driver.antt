-- ===== src/Tokenizer/Driver.antt =====
-- src/tokenizer/mod.rs: `Tokenizer` and its ways to encode a text or a prompt.
pub mod Prompts
use project_willamette.Prelude.{
  ℕ, Bool, true, false, Option, none, some, List, [], ◌∷◌, ◌++◌, length, leb, if◌then◌else◌,
}
use project_willamette.Gguf.Result.{
  Result, ok, err, unsupported_tokenizer, missing_bos, missing_eos, missing_marker, special_range,
}
use project_willamette.Gguf.Outcome
use project_willamette.Gguf.Outcome.{Outcome, pure}
use project_willamette.Sampling.State.{Floats}
use project_willamette.Tokenizer.Pretokenize.Qwen2.{Text}
use project_willamette.Tokenizer.Vocabulary.{token_id}
use project_willamette.Tokenizer.Gpt2.{Gpt2, encode_gpt2, decode_gpt2}
use project_willamette.Tokenizer.SentencePiece.{
  SentencePiece, is_empty_text, encode_sentencepiece, decode_sentencepiece,
}

pub record EncodeOptions : Type 0 where
  pub add_bos : Bool
  pub add_eos : Bool

pub data PromptPart : Type 0 where
  text : Text → PromptPart
  special : ℕ → PromptPart

pub data TokenizerBackend (F : Type 0) : Type 0 where
  gpt2 : Gpt2 → TokenizerBackend F
  sentence_piece : SentencePiece F → TokenizerBackend F

-- The map `token_to_id` is `token_id` of the tokens.
pub record Tokenizer (F : Type 0) : Type 0 where
  pub backend : TokenizerBackend F
  pub id_to_token : List Text
  pub bos_id : Option ℕ
  pub eos_id : Option ℕ
  pub default_add_bos : Bool
  pub default_add_eos : Bool

-- `<|im_start|>`, `<|im_end|>`, and the texts of a turn.
abbrev pub im_start : Text
im_start = 60 ∷ 124 ∷ 105 ∷ 109 ∷ 95 ∷ 115 ∷ 116 ∷ 97 ∷ 114 ∷ 116 ∷ 124 ∷ 62 ∷ []

abbrev pub im_end : Text
im_end = 60 ∷ 124 ∷ 105 ∷ 109 ∷ 95 ∷ 101 ∷ 110 ∷ 100 ∷ 124 ∷ 62 ∷ []

abbrev pub system_line : Text
system_line = 115 ∷ 121 ∷ 115 ∷ 116 ∷ 101 ∷ 109 ∷ 10 ∷ []

abbrev pub user_line : Text
user_line = 117 ∷ 115 ∷ 101 ∷ 114 ∷ 10 ∷ []

abbrev pub assistant_line : Text
assistant_line = 97 ∷ 115 ∷ 115 ∷ 105 ∷ 115 ∷ 116 ∷ 97 ∷ 110 ∷ 116 ∷ 10 ∷ []

abbrev pub newline : Text
newline = 10 ∷ []

-- The id that an option asks for.
unfoldable pub asked_id : Bool → Option ℕ → Result (List ℕ) → Result (List ℕ)
asked_id false id missing = ok []
asked_id true none missing = missing
asked_id true (some id) missing = ok (id ∷ [])

unfoldable pub ok_or_marker : Option ℕ → Outcome ℕ
ok_or_marker none = some (err (unsupported_tokenizer missing_marker))
ok_or_marker (some id) = pure id

unfoldable pub system_parts : ℕ → ℕ → Option Text → List PromptPart
system_parts start end none = []
system_parts start end (some s) =
    special start ∷ text system_line ∷ text s ∷ special end ∷ text newline ∷ []

unfoldable pub user_parts : ℕ → ℕ → Text → List PromptPart
user_parts start end prompt =
    special start
    ∷ text user_line
    ∷ text prompt
    ∷ special end
    ∷ text newline
    ∷ special start
    ∷ text assistant_line
    ∷ []

module _ {F : Type 0} where
  unfoldable pub default_encode_options : Tokenizer F → EncodeOptions
  default_encode_options t = record { add_bos = t.default_add_bos; add_eos = t.default_add_eos }

  unfoldable pub checked_special : Tokenizer F → ℕ → Result (List ℕ)
  checked_special t id =
      if leb (length t.id_to_token) id
      then err (unsupported_tokenizer special_range)
      else ok (id ∷ [])

  unfoldable pub chatml_marker_ids : Tokenizer F → Outcome (ℕ × ℕ)
  chatml_marker_ids t =
      Outcome.◌>>=◌ (ok_or_marker (token_id t.id_to_token im_start)) λ start.
        Outcome.◌>>=◌ (ok_or_marker (token_id t.id_to_token im_end)) λ end. pure (start, end)

  unfoldable pub decode_to_bytes : Tokenizer F → List ℕ → Outcome (List ℕ)
  decode_to_bytes t ids = elim t.backend [
    | gpt2 backend ↦ some (decode_gpt2 backend.byte_unicode t.id_to_token ids)
    | sentence_piece backend ↦ decode_sentencepiece t.id_to_token backend.token_types ids
  ]

module _ {F : Type 0} (f : Floats F) where
  -- What `encode_text_into` appends.
  unfoldable pub encode_text : Tokenizer F → Text → Outcome (List ℕ)
  encode_text t s = elim t.backend [
    | gpt2 backend ↦ encode_gpt2 backend t.id_to_token s
    | sentence_piece backend ↦ encode_sentencepiece f backend t.id_to_token s
  ]

  unfoldable pub encode : Tokenizer F → Text → EncodeOptions → Outcome (List ℕ)
  encode t s options =
      Outcome.◌>>=◌
        (some (asked_id options.add_bos t.bos_id (err (unsupported_tokenizer missing_bos))))
        λ bos. Outcome.◌>>=◌ (encode_text t s) λ ids.
          Outcome.◌>>=◌
            (some (asked_id options.add_eos t.eos_id (err (unsupported_tokenizer missing_eos))))
            λ eos. pure (bos ++ (ids ++ eos))

  -- The loop for GPT-2: each part by itself.
  unfoldable pub encode_part : Tokenizer F → PromptPart → Outcome (List ℕ)
  encode_part t (text s) = encode_text t s
  encode_part t (special id) = some (checked_special t id)

  unfoldable pub encode_each : Tokenizer F → List PromptPart → Outcome (List ℕ)
  encode_each t [] = pure []
  encode_each t (p ∷ ps) =
      Outcome.◌>>=◌ (encode_part t p)
        λ ids. Outcome.◌>>=◌ (encode_each t ps) λ rest. pure (ids ++ rest)

  -- `encode_text_into` of the pending text, unless it is empty.
  unfoldable pub encode_pending : Tokenizer F → Text → Outcome (List ℕ)
  encode_pending t pending = if is_empty_text pending then pure [] else encode_text t pending

  -- The loop for SentencePiece, which joins the texts between two specials.
  unfoldable pub encode_joined : Tokenizer F → Text → List PromptPart → Outcome (List ℕ)
  encode_joined t pending [] = encode_pending t pending
  encode_joined t pending (text s ∷ ps) = encode_joined t (pending ++ s) ps
  encode_joined t pending (special id ∷ ps) = Outcome.◌>>=◌ (encode_pending t pending) λ before.
      Outcome.◌>>=◌ (some (checked_special t id))
        λ own. Outcome.◌>>=◌ (encode_joined t [] ps) λ rest. pure (before ++ (own ++ rest))

  unfoldable pub encode_with_specials : Tokenizer F → List PromptPart → Outcome (List ℕ)
  encode_with_specials t parts = elim t.backend [
    | gpt2 backend ↦ encode_each t parts
    | sentence_piece backend ↦ encode_joined t [] parts
  ]

  unfoldable pub encode_chatml_turn : Tokenizer F → Option Text → Text → Outcome (List ℕ × ℕ)
  encode_chatml_turn t system prompt = Outcome.◌>>=◌ (chatml_marker_ids t) λ (start, end).
      Outcome.◌>>=◌
        (encode_with_specials t (system_parts start end system ++ user_parts start end prompt))
        λ ids. pure (ids, end)

  unfoldable pub encode_chatml_user_turn : Tokenizer F → Text → Outcome (List ℕ × ℕ)
  encode_chatml_user_turn t prompt = encode_chatml_turn t none prompt

  unfoldable pub encode_chatml_follow_up : Tokenizer F → Text → Outcome (List ℕ)
  encode_chatml_follow_up t prompt = Outcome.◌>>=◌ (chatml_marker_ids t) λ (start, end).
      encode_with_specials t (special end ∷ text newline ∷ user_parts start end prompt)
