-- ===== src/Tokenizer/Pretokenize/Lossless.antt =====
-- The chunks of src/tokenizer/pretokenize.rs spell the text, whatever the expressions match.
use project_willamette.Prelude.{
  ℕ, zero, suc, ◌≤◌, ◌≡◌, refl, sym, ap, ◌∙◌, arith, Bool, true, false, not, Option, some, List, [],
  ◌∷◌, ◌++◌, length, take, drop, concat, take-append-drop, length-take, length-drop, All, map, ◌==◌,
  if◌then◌else◌, ◌>>=◌, if-cases,
}
use mathlib.Core.Path.{subst}
use mathlib.Core.List.{append-nil}
use project_willamette.Tokenizer.Pretokenize.Qwen2.{Text}
use project_willamette.Tokenizer.Pretokenize.Advance.{Chunks, qwen2_pretokenize-Chunks}
use project_willamette.Tokenizer.Pretokenize.{
  Regex, Regexes, Gpt2PreTokenizer, default, smol_lm, qwen2, itself, Marked, extract, extend_each,
  mark_each, split_main, split_digits, is_empty, gpt2_pretokenize, space, leading_spaces,
  whitespace_runs, all_chars, starts_with_space, split_internal_whitespace, smollm_split_main,
  smollm_chunk, smollm_pretokenize, pretokenize,
}
use project_willamette.Tokenizer.Pretokenize.Matches.{
  IsFull, Splits, IsFinder, text_of, split_matches-Splits, split_by_regex-Splits, extract-Splits,
  extend_each-Splits,
}

-- What is assumed of the expressions: that `find_iter` gives matches in order, none of them empty.
pub record AreFinders (re : Regexes) : Type 0 where
  pub punct : IsFinder re.punct
  pub main : IsFinder re.main
  pub digits : IsFinder re.digits
  pub smollm_main : IsFinder re.smollm_main
  pub individual_digit : IsFinder re.individual_digit

map-itself : (ps : List Text) → map itself ps ≡ ps
map-itself [] = refl
map-itself (p ∷ ps) = ap (λ t. p ∷ t) (map-itself ps)

Splits-Chunks : (out : Option (List Text)) (text : Text) → Splits itself out text → Chunks out text
Splits-Chunks out text (ps, ps_ok, ps_text, full) =
    (ps, ps_ok, ap concat (sym (map-itself ps)) ∙ ps_text, full)

text_of-mark_each : (re : Regex) (ps : List Text) → map text_of (mark_each re ps) ≡ ps
text_of-mark_each re [] = refl
text_of-mark_each re (p ∷ ps) = ap (λ t. p ∷ t) (text_of-mark_each re ps)

marked-IsFull :
    (re : Regex) (ps : List Text) → All IsFull ps → All (λ p. IsFull (text_of p)) (mark_each re ps)
marked-IsFull re [] h = tt
marked-IsFull re (p ∷ ps) h = (h.0, marked-IsFull re ps h.1)

split_main-Splits :
    (re : Regex)
    → IsFinder re
    → (p : Marked) → IsFull (text_of p)
    → Splits text_of (split_main re p) (text_of p)
unfolding split_main
split_main-Splits re finds (true, s) full = ((true, s) ∷ [], refl, append-nil s, (full, tt))
split_main-Splits re finds (false, s) full =
    let (ps, ps_ok, ps_text, ps_full) = split_by_regex-Splits re finds s in
    rw ps_ok (
      mark_each re ps,
      refl,
      ap concat (text_of-mark_each re ps ∙ sym (map-itself ps)) ∙ ps_text,
      marked-IsFull re ps ps_full,
    )

split_digits-Splits :
    (re : Regex)
    → IsFinder re
    → (p : Marked) → IsFull (text_of p)
    → Splits itself (split_digits re p) (text_of p)
unfolding split_digits
split_digits-Splits re finds (true, s) full = split_by_regex-Splits re finds s
split_digits-Splits re finds (false, s) full = split_by_regex-Splits re finds s

-- A step, and a second one on each of its pieces.
then-Splits :
    {A B : Type 0} (view : A → Text) (view' : B → Text) (out : Option (List A))
    (f : A → Option (List B)) (s : Text)
    → Splits view out s
    → ((x : A) → IsFull (view x) → Splits view' (f x) (view x))
    → Splits view' (out >>= extend_each f) s
then-Splits view view' out f s (ps, ps_ok, ps_text, full) h =
    rw ps_ok
      (subst (Splits view' (extend_each f ps)) ps_text (extend_each-Splits view view' f ps h full))

if_empty-Splits :
    (s : Text) (out : Option (List Text))
    → Splits itself out s
    → Splits itself (if is_empty s then some [] else out) s
if_empty-Splits [] out h = ([], refl, refl, tt)
if_empty-Splits (c ∷ s) out h = h

gpt2_pretokenize-Splits :
    (re : Regexes) → AreFinders re → (text : Text) → Splits itself (gpt2_pretokenize re text) text
unfolding gpt2_pretokenize
gpt2_pretokenize-Splits re finds text =
    if_empty-Splits text
      (extract text re.punct >>= λ step1.
        extend_each (split_main re.main) step1 >>= extend_each (split_digits re.digits))
      (later_steps (extract text re.punct) (extract-Splits re.punct finds.punct text))
  where
    later_steps :
        (out : Option (List Marked))
        → Splits text_of out text
        → Splits itself
            (out >>= λ step1.
              extend_each (split_main re.main) step1 >>= extend_each (split_digits re.digits))
            text
    later_steps out (ps, ps_ok, ps_text, full) = rw ps_ok (
        then-Splits text_of itself (extend_each (split_main re.main) ps) (split_digits re.digits)
          text
          (subst (Splits text_of (extend_each (split_main re.main) ps)) ps_text (
            extend_each-Splits text_of text_of (split_main re.main) ps
              (split_main-Splits re.main finds.main) full))
          (split_digits-Splits re.digits finds.digits))

leading_spaces-le : (s : Text) → leading_spaces s ≤ length s
unfolding leading_spaces
leading_spaces-le [] = omega arith
leading_spaces-le (c ∷ s) = ground (arith, leading_spaces-le s)

whitespace_runs-Splits :
    (fuel : ℕ) (s : Text) → length s ≤ fuel → Splits itself (whitespace_runs fuel s) s
unfolding whitespace_runs
whitespace_runs-Splits zero [] h = ([], refl, refl, tt)
whitespace_runs-Splits (suc fuel) [] h = ([], refl, refl, tt)
whitespace_runs-Splits zero (c ∷ s) h = elim h [ ]
whitespace_runs-Splits (suc fuel) (c ∷ s) h =
    let n : ℕ = if c == space then suc (leading_spaces s) else 1 in
    let fit : (1 ≤ n) × (n ≤ length (c ∷ s)) = ground (arith, leading_spaces-le s) in
    let (ps, ps_ok, text, full) =
      whitespace_runs-Splits fuel (drop n (c ∷ s)) (omega (arith, fit.0, length-drop n (c ∷ s))) in
    rw ps_ok (
      take n (c ∷ s) ∷ ps,
      refl,
      ap (λ t. take n (c ∷ s) ++ t) text ∙ take-append-drop n (c ∷ s),
      (omega (arith, fit.0, fit.1, length-take n (c ∷ s)), full),
    )

split_internal-Splits :
    (is_whitespace : ℕ → Bool) (gap : Text) (b : Bool)
    → IsFull gap
    → Splits itself (split_internal_whitespace is_whitespace gap b) gap
unfolding split_internal_whitespace
split_internal-Splits is_whitespace gap b full =
    let whole : Splits itself (some (gap ∷ [])) gap =
      (gap ∷ [], refl, append-nil gap, (full, tt)) in
    if-cases (λ o. Splits itself o gap) (not (all_chars is_whitespace gap)) (λ e. whole)
      (λ e.
        if-cases (λ o. Splits itself o gap) b (λ e. whole)
          (λ e. whitespace_runs-Splits (length gap) gap (omega arith)))

smollm_chunk-Splits :
    (re : Regexes)
    → AreFinders re
    → (is_whitespace : ℕ → Bool) (p : Marked) → IsFull (text_of p)
    → Splits itself (smollm_chunk re is_whitespace p) (text_of p)
unfolding smollm_chunk smollm_split_main
smollm_chunk-Splits re finds is_whitespace (true, s) full = (s ∷ [], refl, append-nil s, (full, tt))
smollm_chunk-Splits re finds is_whitespace (false, s) full =
    split_matches-Splits
      (λ gap found. split_internal_whitespace is_whitespace gap (starts_with_space found)) itself
      itself itself
      (λ g found full. split_internal-Splits is_whitespace g (starts_with_space found) full)
      (λ s. refl) (λ s. refl) s 0 (re.smollm_main.find_iter s) (omega arith) (finds.smollm_main s)

smollm_pretokenize-Splits :
    (re : Regexes)
    → AreFinders re
    → (is_whitespace : ℕ → Bool) (text : Text)
    → Splits itself (smollm_pretokenize re is_whitespace text) text
unfolding smollm_pretokenize
smollm_pretokenize-Splits re finds is_whitespace text =
    if_empty-Splits text
      (extract text re.individual_digit >>= extend_each (smollm_chunk re is_whitespace))
      (then-Splits text_of itself _ _ text
        (extract-Splits re.individual_digit finds.individual_digit text)
        (smollm_chunk-Splits re finds is_whitespace))

-- If the expressions find matches in order, none of them empty, each of the three ways to cut a text
-- gives chunks, without a panic, that spell it and of which none is empty.
pub pretokenize-Chunks :
    (re : Regexes) (is_whitespace : ℕ → Bool) (kind : Gpt2PreTokenizer) (text : Text)
    → AreFinders re
    → Chunks (pretokenize re is_whitespace kind text) text
unfolding pretokenize
pretokenize-Chunks re w default text finds =
    Splits-Chunks _ text (gpt2_pretokenize-Splits re finds text)
pretokenize-Chunks re w smol_lm text finds =
    Splits-Chunks _ text (smollm_pretokenize-Splits re finds w text)
pretokenize-Chunks re w qwen2 text finds = qwen2_pretokenize-Chunks re.classes text
