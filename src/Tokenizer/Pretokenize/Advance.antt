-- ===== src/Tokenizer/Pretokenize/Advance.antt =====
-- A round of `qwen2_pretokenize` of src/tokenizer/pretokenize.rs takes a character at least, and none
-- past the end; so the loop ends and loses nothing.
use project_willamette.Prelude.{
  ℕ, zero, suc, ◌+◌, ◌≤◌, ◌<◌, ◌≡◌, refl, sym, ap, ◌∙◌, arith, Bool, true, not, ◌&&◌, ◌||◌, Option,
  none, some, List, [], ◌∷◌, ◌++◌, length, take, drop, concat, take-append-drop, length-take,
  length-drop, All, ltb, le→leb, ◌==◌, if◌then◌else◌, Bool-cases, if-cases, Option-cases, inl, inr,
}
use mathlib.Core.Path.{subst}
use mathlib.Core.List.{map-append}
use project_willamette.Tokenizer.Pretokenize.Qwen2.{
  Text, Classes, Qwen2Char, classify, holds_at, count_while, qwen2_contraction_len, is_newline,
  is_letter, is_whitespace, is_symbol, last_newline_end, whitespace_len, symbols_end, symbol_pos,
  chunk_len, values, qwen2_loop, qwen2_pretokenize,
}

count_while-le : (test : Qwen2Char → Bool) (cs : List Qwen2Char) → count_while test cs ≤ length cs
unfolding count_while
count_while-le test [] = omega arith
count_while-le test (c ∷ cs) = ground (arith, count_while-le test cs)

contraction_fits :
    (chars : List Qwen2Char)
    → 0 < qwen2_contraction_len chars
    → qwen2_contraction_len chars ≤ length chars
unfolding qwen2_contraction_len
contraction_fits [] h = ground arith
contraction_fits (a ∷ []) h = ground arith
contraction_fits (a ∷ b ∷ []) h = ground arith
contraction_fits (a ∷ b ∷ c ∷ cs) h = ground arith

last_newline-bounds :
    (pos : ℕ) (chars : List Qwen2Char) (end : ℕ)
    → last_newline_end pos chars ≡ some end
    → (pos < end) × (end ≤ pos + length chars)
unfolding last_newline_end
last_newline-bounds pos [] end h = cc
last_newline-bounds pos (c ∷ cs) end h = elim (Bool-cases c.whitespace) [
  | inr e ↦ cc (rw e at h)
  | inl e ↦
      later_or_here (last_newline_end (pos + 1) cs) (rw e at h) (last_newline-bounds (pos + 1) cs)
]
  where
    later_or_here :
        (later : Option ℕ)
        → (elim later as (λ _. Option ℕ) [
          | some end ↦ some end
          | none ↦ if is_newline c then some (pos + 1) else none
        ])
          ≡ some end
        → ((e : ℕ) → later ≡ some e → (pos + 1 < e) × (e ≤ pos + 1 + length cs))
        → (pos < end) × (end ≤ pos + suc (length cs))
    later_or_here none h ih = ground arith
    later_or_here (some e) h ih = ground (arith, ih e refl)

symbols_fit :
    (at : ℕ) (chars : List Qwen2Char)
    → at < length chars
    → (at < symbols_end at chars) × (symbols_end at chars ≤ length chars)
unfolding symbols_end
symbols_fit at chars h =
    let past = at + 1 + count_while is_symbol (drop (at + 1) chars) in
    omega (
      arith,
      count_while-le is_symbol (drop (at + 1) chars),
      length-drop (at + 1) chars,
      count_while-le is_newline (drop past chars),
      length-drop past chars,
    )

holds-lt :
    (test : Qwen2Char → Bool) (i : ℕ) (chars : List Qwen2Char)
    → holds_at test i chars ≡ true
    → i < length chars
holds-lt test i [] h = cc
holds-lt test zero (c ∷ cs) h = omega arith
holds-lt test (suc i) (c ∷ cs) h = omega (arith, holds-lt test i cs h)

whitespace_fits :
    (c : Qwen2Char) (cs : List Qwen2Char)
    → (1 ≤ whitespace_len (c ∷ cs)) × (whitespace_len (c ∷ cs) ≤ length (c ∷ cs))
unfolding whitespace_len
whitespace_fits c cs = elim (Option-cases (last_newline_end 0 (c ∷ cs))) [
  | inl e ↦ rw (whitespace_len, e) (ground (arith, count_while-le is_whitespace (c ∷ cs)))
  | inr (end, e) ↦ rw (whitespace_len, e) (omega (arith, last_newline-bounds 0 (c ∷ cs) end e))
]

holds-symbol :
    (c : Qwen2Char) (cs : List Qwen2Char)
    → holds_at is_symbol (symbol_pos c) (c ∷ cs) ≡ true
    → (1 ≤ symbols_end (symbol_pos c) (c ∷ cs))
      × (symbols_end (symbol_pos c) (c ∷ cs) ≤ length (c ∷ cs))
holds-symbol c cs h =
    let fit = symbols_fit (symbol_pos c) (c ∷ cs) (holds-lt is_symbol (symbol_pos c) (c ∷ cs) h) in
    (omega (arith, fit.0), fit.1)

chunk_fits :
    (c : Qwen2Char) (cs : List Qwen2Char)
    → (1 ≤ chunk_len c cs) × (chunk_len c cs ≤ length (c ∷ cs))
unfolding chunk_len
chunk_fits c cs =
    if-cases Fits (c.value == 39 && ltb 0 (qwen2_contraction_len (c ∷ cs)))
      (λ e. (ground arith, contraction_fits (c ∷ cs) (ground arith)))
      (λ e.
        if-cases Fits (not (is_newline c) && not c.number && (c.letter || holds_at is_letter 0 cs))
          (λ e. (omega arith, omega (arith, count_while-le is_letter cs)))
          (λ e.
            if-cases Fits c.number (λ e. (omega arith, omega arith))
              (λ e.
                if-cases Fits (holds_at is_symbol (symbol_pos c) (c ∷ cs)) (holds-symbol c cs)
                  (λ e. whitespace_fits c cs))))
  where
    Fits : ℕ → Type 0
    Fits n = (1 ≤ n) × (n ≤ length (c ∷ cs))

-- What a loop over the characters of a text gives: chunks that spell it, none of them empty.
abbrev pub Chunks : Option (List Text) → Text → Type 0
Chunks out text =
    (ps : List Text) × (out ≡ some ps) × (concat ps ≡ text) × All (λ p. 0 < length p) ps

length-values : (cs : List Qwen2Char) → length (values cs) ≡ length cs
length-values [] = refl
length-values (c ∷ cs) = ap suc (length-values cs)

values-split : (n : ℕ) (cs : List Qwen2Char) → values (take n cs) ++ values (drop n cs) ≡ values cs
values-split n cs = sym (map-append _ (take n cs) (drop n cs)) ∙ ap values (take-append-drop n cs)

qwen2_loop-Chunks :
    (fuel : ℕ) (cs : List Qwen2Char) → length cs ≤ fuel → Chunks (qwen2_loop fuel cs) (values cs)
unfolding qwen2_loop
qwen2_loop-Chunks zero [] h = ([], refl, refl, tt)
qwen2_loop-Chunks (suc fuel) [] h = ([], refl, refl, tt)
qwen2_loop-Chunks zero (c ∷ cs) h = elim h [ ]
qwen2_loop-Chunks (suc fuel) (c ∷ cs) h =
    let n = chunk_len c cs in
    let (pos, fit) = chunk_fits c cs in
    let (ps, ps_ok, text, full) =
      qwen2_loop-Chunks fuel (drop n (c ∷ cs)) (omega (arith, pos, length-drop n (c ∷ cs))) in
    rw (ps_ok, le→leb n (length (c ∷ cs)) fit)
      (
        values (take n (c ∷ cs)) ∷ ps,
        refl,
        ap (λ t. values (take n (c ∷ cs)) ++ t) text ∙ values-split n (c ∷ cs),
        (omega (arith, pos, fit, length-values (take n (c ∷ cs)), length-take n (c ∷ cs)), full),
      )

values-classify : (classes : Classes) (s : Text) → values (classify classes s) ≡ s
unfolding classify
values-classify classes [] = refl
values-classify classes (c ∷ s) = ap (λ t. c ∷ t) (values-classify classes s)

pub qwen2_pretokenize-Chunks :
    (classes : Classes) (text : Text) → Chunks (qwen2_pretokenize classes text) text
unfolding qwen2_pretokenize
qwen2_pretokenize-Chunks classes text =
    subst (Chunks (qwen2_loop (length (classify classes text)) (classify classes text)))
      (values-classify classes text)
      (qwen2_loop-Chunks (length (classify classes text)) (classify classes text) (omega arith))
