-- ===== src/Runs/Tokens.antt =====
-- A text through the GPT-2 tokenizer.
use project_willamette.Prelude.{
  ℕ, zero, suc, ◌+◌, ◌≤◌, ◌<◌, ◌≡◌, refl, sym, ap, ◌∙◌, arith, Bool, true, false, ◌&&◌, none, some,
  List, [], ◌∷◌, ◌++◌, length, get_elem?, map, All, leb, if◌then◌else◌, ◌==◌, Bool-cases, inl, inr,
}
use project_willamette.Gguf.Result.{ok}
use project_willamette.Editor.Text.{text_eq}
use project_willamette.Editor.Search.{text_eq_iff}
use project_willamette.Tokenizer.ByteUnicode
use project_willamette.Tokenizer.ByteUnicode.{new, encode_byte}
use project_willamette.Tokenizer.Bpe
use project_willamette.Tokenizer.Bpe.{MergeRanks, Symbol}
use project_willamette.Tokenizer.Pretokenize.Qwen2.{Text, Classes}
use project_willamette.Tokenizer.Pretokenize
use project_willamette.Tokenizer.Pretokenize.{Regex, Regexes, default, pretokenize}
use project_willamette.Tokenizer.Pretokenize.Advance.{Chunks}
use project_willamette.Tokenizer.Pretokenize.Matches.{IsFinder, IsOrdered}
use project_willamette.Tokenizer.Pretokenize.Lossless.{AreFinders, pretokenize-Chunks}
use project_willamette.Tokenizer.Vocabulary
use project_willamette.Tokenizer.Vocabulary.{as_bytes, char_end, u32_mod, id_from-known, token_id}
use project_willamette.Tokenizer.Gpt2
use project_willamette.Tokenizer.Gpt2.{Gpt2, encode_gpt2, decode_gpt2}
use project_willamette.Runs.Sampled.{naturals}
use project_willamette.Tokenizer.Driver
use project_willamette.Tokenizer.Driver.{
  Tokenizer, gpt2, im_start, im_end, encode_chatml_turn, decode_to_bytes,
}
use project_willamette.Tokenizer.Driver.Prompts.{turn_text, encode_chatml_turn-decodes}
use project_willamette.Tokenizer.Gpt2.RoundTrip.{decode_gpt2-encode_gpt2}
use project_willamette.Tokenizer.Gpt2.Complete.{IsComplete, encode_gpt2-IsComplete}

-- An expression for one character of a class.
abbrev class_finds : (ℕ → Bool) → ℕ → Text → List (ℕ × ℕ)
class_finds test i [] = []
class_finds test i (c ∷ s) =
    if test c then (i, i + 1) ∷ class_finds test (i + 1) s else class_finds test (i + 1) s

abbrev class_regex : (ℕ → Bool) → Regex
class_regex test = record {
  find_iter = class_finds test 0;
  is_match = λ s. elim (class_finds test 0 s) [ [] ↦ false | _ ↦ true ];
}

class_finds-IsOrdered :
    (test : ℕ → Bool) (n last i : ℕ) (s : Text)
    → last ≤ i
    → i + length s ≤ n
    → IsOrdered n last (class_finds test i s)
class_finds-IsOrdered test n last i [] h k = tt
class_finds-IsOrdered test n last i (c ∷ s) h k = elim (Bool-cases (test c)) [
  | inl is_in ↦ rw is_in (
    h,
    omega arith,
    omega arith,
    class_finds-IsOrdered test n (i + 1) (i + 1) s (omega arith) (omega arith),
  )
  | inr is_out ↦ rw is_out (class_finds-IsOrdered test n last (i + 1) s (omega arith) (omega arith))
]

class_regex-IsFinder : (test : ℕ → Bool) → IsFinder (class_regex test)
class_regex-IsFinder test s =
    class_finds-IsOrdered test (length s) 0 0 s (omega arith) (omega arith)

abbrev is_digit : ℕ → Bool
is_digit c = leb 48 c && leb c 57

abbrev is_space : ℕ → Bool
is_space c = c == 32

abbrev classes : Classes
classes = record { is_letter = λ c. leb 97 c; is_number = is_digit; is_whitespace = is_space }

abbrev regexes : Regexes
regexes = record {
  punct = class_regex (λ c. c == 33);
  main = class_regex is_space;
  digits = class_regex is_digit;
  smollm_main = class_regex is_space;
  individual_digit = class_regex is_digit;
  classes = classes;
}

regexes-AreFinders : AreFinders regexes
regexes-AreFinders = record {
  punct = class_regex-IsFinder (λ c. c == 33);
  main = class_regex-IsFinder is_space;
  digits = class_regex-IsFinder is_digit;
  smollm_main = class_regex-IsFinder is_space;
  individual_digit = class_regex-IsFinder is_digit;
}

-- `hi, 4!` with a letter of two bytes at its end.
abbrev greeting : Text
greeting = 104 ∷ 105 ∷ 32 ∷ 52 ∷ 33 ∷ 233 ∷ []

abbrev greeting_ranks : MergeRanks
greeting_ranks a b = if text_eq a (104 ∷ []) && text_eq b (105 ∷ []) then some 0 else none

-- A token for each byte, and one for the merge.
abbrev tokens : List Text
tokens = map (λ c. c ∷ []) new.byte_to_char ++ (104 ∷ 105 ∷ []) ∷ []

abbrev byte_backend : Gpt2
byte_backend = record {
  byte_unicode = new;
  ranks = greeting_ranks;
  pretokenizer = default;
  regexes = regexes;
  is_whitespace = is_space;
}

get_elem?-singles :
    (xs : List ℕ) (ys : List Text) (b c : ℕ)
    → get_elem? xs b ≡ some c
    → get_elem? (map (λ c. c ∷ []) xs ++ ys) b ≡ some (c ∷ [])
get_elem?-singles [] ys b c h = cc
get_elem?-singles (x ∷ xs) ys zero c h = cc
get_elem?-singles (x ∷ xs) ys (suc b) c h = get_elem?-singles xs ys b c h

merged_token : get_elem? tokens 256 ≡ some (104 ∷ 105 ∷ [])
unfolding new ByteUnicode.table_from ByteUnicode.printable
merged_token = refl

tokens-IsComplete : IsComplete tokens greeting_ranks
unfolding encode_byte token_id
tokens-IsComplete = record {
  bytes = λ b c lt at.
      id_from-known 0 b tokens (c ∷ [])
        (get_elem?-singles new.byte_to_char ((104 ∷ 105 ∷ []) ∷ []) b c at);
  merges = λ s t rank at. id_from-known 0 256 tokens (s ++ t) (merged s t rank at);
}
  where
    merged :
        (s t : Symbol) (rank : ℕ)
        → greeting_ranks s t ≡ some rank
        → get_elem? tokens 256 ≡ some (s ++ t)
    merged s t rank at = elim (Bool-cases (text_eq s (104 ∷ []))) [
      | inr other ↦ cc (rw other at at)
      | inl left ↦ elim (Bool-cases (text_eq t (105 ∷ []))) [
        | inr other ↦ cc (rw (left, other) at at)
        | inl right ↦
            merged_token
            ∙ ap some (
                sym (
                  ap (λ s. s ++ t) ((text_eq_iff s _).0 left)
                  ∙ ap (λ t. 104 ∷ t) ((text_eq_iff t _).0 right)))
      ]
    ]

greeting-IsText : All (λ c. c < char_end) greeting
greeting-IsText =
    (omega arith, (omega arith, (omega arith, (omega arith, (omega arith, (omega arith, tt))))))

tokens_fit : length tokens ≤ u32_mod
unfolding new ByteUnicode.table_from ByteUnicode.printable
tokens_fit = fits (length tokens) refl
  where
    fits : (n : ℕ) → n ≡ 257 → n ≤ u32_mod
    fits n h = omega (arith, h)

pretokenize-Chunks_example : Chunks (pretokenize regexes is_space default greeting) greeting
pretokenize-Chunks_example = pretokenize-Chunks regexes is_space default greeting regexes-AreFinders

greeting_ids :
    encode_gpt2 byte_backend tokens greeting ≡ some (ok (256 ∷ 32 ∷ 52 ∷ 33 ∷ 195 ∷ 169 ∷ []))
unfolding encode_gpt2 pretokenize Pretokenize.gpt2_pretokenize Pretokenize.extract
    Pretokenize.split_matches Pretokenize.extend_each Pretokenize.split_main
    Pretokenize.split_digits Pretokenize.split_by_regex Gpt2.encode_chunks Gpt2.encode_chunk
    Gpt2.symbols_of Gpt2.ids_of as_bytes Vocabulary.utf8_char encode_byte new ByteUnicode.table_from
    ByteUnicode.printable token_id Vocabulary.id_from Bpe.encode_word Bpe.merge_loop Bpe.scan_pairs
    Bpe.better Bpe.merge_at text_eq
greeting_ids = refl

decode_gpt2-encode_gpt2_example :
    decode_gpt2 new tokens (256 ∷ 32 ∷ 52 ∷ 33 ∷ 195 ∷ 169 ∷ []) ≡ ok (as_bytes greeting)
decode_gpt2-encode_gpt2_example =
    decode_gpt2-encode_gpt2 byte_backend tokens greeting (256 ∷ 32 ∷ 52 ∷ 33 ∷ 195 ∷ 169 ∷ [])
      tokens_fit refl refl regexes-AreFinders greeting-IsText greeting_ids

encode_gpt2-IsComplete_example :
    (ids : List ℕ) × (encode_gpt2 byte_backend tokens greeting ≡ some (ok ids))
    × (decode_gpt2 new tokens ids ≡ ok (as_bytes greeting))
encode_gpt2-IsComplete_example =
    encode_gpt2-IsComplete byte_backend tokens greeting tokens-IsComplete tokens_fit refl refl
      regexes-AreFinders greeting-IsText

-- The tokens with the markers of ChatML.
abbrev chat_tokens : List Text
chat_tokens = tokens ++ im_start ∷ im_end ∷ []

abbrev chat_tokenizer : Tokenizer ℕ
chat_tokenizer = record {
  backend = gpt2 byte_backend;
  id_to_token = chat_tokens;
  bos_id = none;
  eos_id = none;
  default_add_bos = false;
  default_add_eos = false;
}

abbrev turn_ids : List ℕ
turn_ids =
    257 ∷ 117 ∷ 115 ∷ 101 ∷ 114 ∷ 10 ∷ 256 ∷ 258 ∷ 10 ∷ 257 ∷ 97 ∷ 115 ∷ 115 ∷ 105 ∷ 115 ∷ 116 ∷ 97
    ∷ 110 ∷ 116 ∷ 10 ∷ []

turn_run :
    encode_chatml_turn naturals chat_tokenizer none (104 ∷ 105 ∷ []) ≡ some (ok (turn_ids, 258))
unfolding encode_gpt2 pretokenize Pretokenize.gpt2_pretokenize Pretokenize.extract
    Pretokenize.split_matches Pretokenize.extend_each Pretokenize.split_main
    Pretokenize.split_digits Pretokenize.split_by_regex Gpt2.encode_chunks Gpt2.encode_chunk
    Gpt2.symbols_of Gpt2.ids_of as_bytes Vocabulary.utf8_char encode_byte new ByteUnicode.table_from
    ByteUnicode.printable token_id Vocabulary.id_from Bpe.encode_word Bpe.merge_loop Bpe.scan_pairs
    Bpe.better Bpe.merge_at text_eq encode_chatml_turn Driver.chatml_marker_ids Driver.ok_or_marker
    Driver.encode_with_specials Driver.encode_each Driver.encode_part Driver.encode_text
    Driver.checked_special Driver.system_parts Driver.user_parts
turn_run = refl

chat_tokens_fit : length chat_tokens ≤ u32_mod
unfolding new ByteUnicode.table_from ByteUnicode.printable
chat_tokens_fit = fits (length chat_tokens) refl
  where
    fits : (n : ℕ) → n ≡ 259 → n ≤ u32_mod
    fits n h = omega (arith, h)

encode_chatml_turn-decodes_example :
    (get_elem? chat_tokens 258 ≡ some im_end)
    × (decode_to_bytes chat_tokenizer turn_ids
        ≡ some (ok (as_bytes (turn_text none (104 ∷ 105 ∷ [])))))
encode_chatml_turn-decodes_example =
    encode_chatml_turn-decodes naturals chat_tokenizer byte_backend none (104 ∷ 105 ∷ []) turn_ids
      258 refl chat_tokens_fit refl refl regexes-AreFinders tt (omega arith, (omega arith, tt))
      turn_run
