-- ===== src/Tokenizer/Pretokenize.antt =====
-- src/tokenizer/pretokenize.rs: the chunks that the byte-pair encoder works on. A text is the list
-- of its characters, and offsets count characters: the code slices at the ends of characters only.
-- The expressions of the regex crate are parameters.
pub mod Qwen2
pub mod Advance
pub mod Matches
pub mod Lossless
use project_willamette.Prelude.{
  ℕ, zero, suc, ◌+◌, Bool, true, false, not, Option, none, some, List, [], ◌∷◌, ◌++◌, length, take,
  drop, slice?, ltb, ◌==◌, if◌then◌else◌, ◌>>=◌,
}
use project_willamette.Tokenizer.Pretokenize.Qwen2.{Text, Classes, qwen2_pretokenize}

-- A compiled expression: the ends of the matches that `find_iter` gives, and `is_match`.
pub record Regex : Type 0 where
  pub find_iter : Text → List (ℕ × ℕ)
  pub is_match : Text → Bool

pub record Regexes : Type 0 where
  pub punct : Regex
  pub main : Regex
  pub digits : Regex
  pub smollm_main : Regex
  pub individual_digit : Regex
  pub classes : Classes

pub data Gpt2PreTokenizer : Type 0 where
  default smol_lm qwen2 : Gpt2PreTokenizer

-- The loop over the matches of an expression, from `last` on. What stands before a match goes to
-- `gap` with that match, the match to `hit`, and what is left after the last one to `rest`.
module _ {A : Type 0} (gap : Text → Text → Option (List A)) (hit rest : Text → A) where
  unfoldable pub split_matches : Text → ℕ → List (ℕ × ℕ) → Option (List A)
  split_matches chunk last [] =
      if ltb last (length chunk)
      then (do s ← slice? last (length chunk) chunk; some (rest s ∷ []))
      else some []
  split_matches chunk last ((start, end) ∷ ms) = do
    found ← slice? start end chunk
    before ← (if ltb last start then (do s ← slice? last start chunk; gap s found) else some [])
    after ← split_matches chunk end ms
    some (before ++ (hit found ∷ after))

abbrev pub itself : Text → Text
itself s = s

abbrev pub alone : Text → Text → Option (List Text)
alone s found = some (s ∷ [])

unfoldable pub split_by_regex : Text → Regex → Option (List Text)
split_by_regex chunk re = split_matches alone itself itself chunk 0 (re.find_iter chunk)

-- The pieces with a mark on those that matched.
abbrev pub Marked : Type 0
Marked = Bool × Text

abbrev pub matched : Text → Marked
matched s = (true, s)

abbrev pub unmatched : Text → Marked
unmatched s = (false, s)

abbrev pub alone_unmatched : Text → Text → Option (List Marked)
alone_unmatched s found = some (unmatched s ∷ [])

unfoldable pub extract : Text → Regex → Option (List Marked)
extract text re = split_matches alone_unmatched matched unmatched text 0 (re.find_iter text)

-- What a loop that extends its output by the pieces of each item gives.
unfoldable pub extend_each {ℓ κ} :
    {A : Type ℓ} {B : Type κ} → (A → Option (List B)) → List A → Option (List B)
extend_each f [] = some []
extend_each f (x ∷ xs) = do ys ← f x; rest ← extend_each f xs; some (ys ++ rest)

abbrev pub mark_each : Regex → List Text → List Marked
mark_each re [] = []
mark_each re (s ∷ ss) = (re.is_match s, s) ∷ mark_each re ss

-- Step 2 for one chunk of step 1.
unfoldable pub split_main : Regex → Marked → Option (List Marked)
split_main re (true, s) = some ((true, s) ∷ [])
split_main re (false, s) = do subs ← split_by_regex s re; some (mark_each re subs)

-- Step 3 for one chunk: both branches of the source do the same.
unfoldable pub split_digits : Regex → Marked → Option (List Text)
split_digits re (true, s) = split_by_regex s re
split_digits re (false, s) = split_by_regex s re

abbrev pub is_empty : Text → Bool
is_empty [] = true
is_empty (c ∷ s) = false

unfoldable pub gpt2_pretokenize : Regexes → Text → Option (List Text)
gpt2_pretokenize re text = if is_empty text then some [] else (do
  step1 ← extract text re.punct
  step2 ← extend_each (split_main re.main) step1
  extend_each (split_digits re.digits) step2)

abbrev pub space : ℕ
space = 32

-- How many spaces a text begins with.
unfoldable pub leading_spaces : Text → ℕ
leading_spaces [] = 0
leading_spaces (c ∷ s) = let n = leading_spaces s in if c == space then suc n else 0

-- The loop of `split_internal_whitespace`: a run of spaces is one piece, any other character too.
-- Each round takes a character at least, so that as much fuel as characters is enough.
unfoldable pub whitespace_runs : ℕ → Text → Option (List Text)
whitespace_runs fuel [] = some []
whitespace_runs zero (c ∷ s) = none
whitespace_runs (suc fuel) (c ∷ s) =
    let n = (if c == space then suc (leading_spaces s) else 1) in
    (do runs ← whitespace_runs fuel (drop n (c ∷ s)); some (take n (c ∷ s) ∷ runs))

unfoldable pub all_chars : (ℕ → Bool) → Text → Bool
all_chars p [] = true
all_chars p (c ∷ s) = let rest = all_chars p s in if p c then rest else false

abbrev pub starts_with_space : Text → Bool
starts_with_space [] = false
starts_with_space (c ∷ s) = c == space

-- `is_whitespace` is `char::is_whitespace`.
unfoldable pub split_internal_whitespace : (ℕ → Bool) → Text → Bool → Option (List Text)
split_internal_whitespace is_whitespace gap next_match_has_space =
    if not (all_chars is_whitespace gap)
    then some (gap ∷ [])
    else if next_match_has_space
    then some (gap ∷ [])
    else whitespace_runs (length gap) gap

unfoldable pub smollm_split_main : Regexes → (ℕ → Bool) → Text → Option (List Text)
smollm_split_main re is_whitespace chunk =
    split_matches
      (λ gap found. split_internal_whitespace is_whitespace gap (starts_with_space found)) itself
      itself chunk 0 (re.smollm_main.find_iter chunk)

unfoldable pub smollm_chunk : Regexes → (ℕ → Bool) → Marked → Option (List Text)
smollm_chunk re is_whitespace (true, s) = some (s ∷ [])
smollm_chunk re is_whitespace (false, s) = smollm_split_main re is_whitespace s

unfoldable pub smollm_pretokenize : Regexes → (ℕ → Bool) → Text → Option (List Text)
smollm_pretokenize re is_whitespace text = if is_empty text then some [] else (do
  digits_extracted ← extract text re.individual_digit
  extend_each (smollm_chunk re is_whitespace) digits_extracted)

unfoldable pub pretokenize : Regexes → (ℕ → Bool) → Gpt2PreTokenizer → Text → Option (List Text)
pretokenize re is_whitespace default text = gpt2_pretokenize re text
pretokenize re is_whitespace smol_lm text = smollm_pretokenize re is_whitespace text
pretokenize re is_whitespace qwen2 text = qwen2_pretokenize re.classes text
