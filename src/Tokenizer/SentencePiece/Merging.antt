-- ===== src/Tokenizer/SentencePiece/Merging.antt =====
-- The merges of `encode_sentencepiece` of src/tokenizer/mod.rs: they end, and keep the text.
use project_willamette.Prelude.{
  ℕ, zero, suc, ◌+◌, ◌≤◌, ◌<◌, ◌≡◌, refl, sym, ap, ◌∙◌, arith, Option, none, some, List, [], ◌∷◌,
  ◌++◌, length, concat, get_elem?, get_elem?-lt, set, All, if-cases, Option-cases, inl, inr,
}
use mathlib.Core.Path.{subst}
use mathlib.Core.List.{append_assoc}
use project_willamette.Sampling.State.{Floats}
use project_willamette.Tokenizer.Pretokenize.Qwen2.{Text}
use project_willamette.Tokenizer.Vocabulary.{token_id, token_id-get, u32_mod}
use project_willamette.Tokenizer.Gpt2.Complete.{IsKnown}
use project_willamette.Tokenizer.SentencePiece.{
  Symbols, live, beats, consider, scan_windows, best_sentencepiece_merge, merge_pair, merge_symbols,
}

-- The symbols that are left.
abbrev pub flatten : Symbols → List Text
flatten [] = []
flatten (none ∷ symbols) = flatten symbols
flatten (some s ∷ symbols) = s ∷ flatten symbols

-- The first symbol that is left is `b`, at an index.
data NextIs : Symbols → ℕ → Text → Type 0 where
  now : (b : Text) (s : Symbols) → NextIs (some b ∷ s) 0 b
  later : {s : Symbols} {k : ℕ} {b : Text} → NextIs s k b → NextIs (none ∷ s) (suc k) b

-- Two symbols that are left, with none left between them.
data Adjacent : Symbols → ℕ → ℕ → Text → Text → Type 0 where
  here :
      {s : Symbols} {k : ℕ} {b : Text} (a : Text)
      → NextIs s k b
      → Adjacent (some a ∷ s) 0 (suc k) a b
  there :
      {s : Symbols} {l r : ℕ} {a b : Text} (o : Option Text)
      → Adjacent s l r a b
      → Adjacent (o ∷ s) (suc l) (suc r) a b

NextIs-get : {s : Symbols} {k : ℕ} {b : Text} → NextIs s k b → get_elem? s k ≡ some (some b)
NextIs-get (now b s) = refl
NextIs-get (later n) = NextIs-get n

-- What the removal of the next symbol leaves.
NextIs-flatten :
    {s : Symbols} {k : ℕ} {b : Text} → NextIs s k b → flatten s ≡ b ∷ flatten (set s k none)
NextIs-flatten (now b s) = refl
NextIs-flatten (later n) = NextIs-flatten n

Adjacent-right :
    {s : Symbols} {l r : ℕ} {a b : Text} → Adjacent s l r a b → get_elem? s r ≡ some (some b)
Adjacent-right (here a n) = NextIs-get n
Adjacent-right (there o d) = Adjacent-right d

Adjacent-left :
    {s : Symbols} {l r : ℕ} {a b : Text}
    → Adjacent s l r a b
    → get_elem? (set s r none) l ≡ some (some a)
Adjacent-left (here a n) = refl
Adjacent-left (there o d) = Adjacent-left d

-- The merge of two symbols, in the list of those that are left.
abbrev Merges : Symbols → Symbols → Text → Text → Type 1
Merges s t a b =
    (concat (flatten t) ≡ concat (flatten s))
    × (suc (length (flatten t)) ≡ length (flatten s))
    × ((P : Text → Type 0) → All P (flatten s) → P (a ++ b) → All P (flatten t))

Adjacent-Merges :
    {s : Symbols} {l r : ℕ} {a b : Text}
    → Adjacent s l r a b
    → Merges s (set (set s r none) l (some (a ++ b))) a b
Adjacent-Merges (here {s} {k} {b} a n) = (
  append_assoc a b (concat (flatten (set s k none)))
      ∙ ap (λ l. a ++ concat l) (sym (NextIs-flatten n)),
  ap (λ l. suc (length l)) (sym (NextIs-flatten n)),
  λ P h p. (p, (subst (All P) (NextIs-flatten n) h.1).1),
)
Adjacent-Merges (there none d) = Adjacent-Merges d
Adjacent-Merges (there (some s) d) =
    let (text, count, keeps) = Adjacent-Merges d in
    (ap (λ t. s ++ t) text, ap suc count, λ P h p. (h.0, keeps P h.1 p))

merge_pair-some :
    {s : Symbols} {l r : ℕ} {a b : Text}
    → Adjacent s l r a b
    → merge_pair s l r ≡ some (set (set s r none) l (some (a ++ b)))
unfolding merge_pair
merge_pair-some d = rw (Adjacent-right d, Adjacent-left d) refl

-- Two entries of the list of symbols that are left, from an index on.
abbrev Windows : Symbols → ℕ → ℕ × Text → ℕ × Text → Type 0
Windows s i (x, a) (y, b) = (l : ℕ) × (r : ℕ) × (x ≡ i + l) × (y ≡ i + r) × Adjacent s l r a b

abbrev EachWindow : (ℕ × Text → ℕ × Text → Type 0) → List (ℕ × Text) → Type 0
EachWindow W [] = Unit
EachWindow W (x ∷ []) = Unit
EachWindow W (x ∷ y ∷ rest) = W x y × EachWindow W (y ∷ rest)

EachWindow-map :
    (V W : ℕ × Text → ℕ × Text → Type 0)
    → ((x y : ℕ × Text) → V x y → W x y)
    → (ws : List (ℕ × Text)) → EachWindow V ws
    → EachWindow W ws
EachWindow-map V W f [] h = tt
EachWindow-map V W f (x ∷ []) h = tt
EachWindow-map V W f (x ∷ y ∷ rest) h = (f x y h.0, EachWindow-map V W f (y ∷ rest) h.1)

live-NextIs :
    (i : ℕ) (s : Symbols) (y : ℕ × Text) (rest : List (ℕ × Text))
    → live i s ≡ y ∷ rest
    → (k : ℕ) × (y.0 ≡ i + k) × NextIs s k y.1
unfolding live
live-NextIs i [] y rest h = cc
live-NextIs i (none ∷ s) y rest h =
    let (k, at, n) = live-NextIs (i + 1) s y rest h in (suc k, omega (arith, at), later n)
live-NextIs i (some b ∷ s) y rest h =
    subst (λ (y : ℕ × Text). (k : ℕ) × (y.0 ≡ i + k) × NextIs (some b ∷ s) k y.1) (head_same h)
      (0, omega arith, now b s)
  where
    head_same : {x y : ℕ × Text} {xs ys : List (ℕ × Text)} → x ∷ xs ≡ y ∷ ys → x ≡ y
    head_same p = cc

live-Windows : (i : ℕ) (s : Symbols) → EachWindow (Windows s i) (live i s)
unfolding live
live-Windows i [] = tt
live-Windows i (none ∷ s) =
    EachWindow-map (Windows s (i + 1)) (Windows (none ∷ s) i)
      (λ x y (l, r, xl, yr, d). (suc l, suc r, omega (arith, xl), omega (arith, yr), there none d))
      (live (i + 1) s) (live-Windows (i + 1) s)
live-Windows i (some a ∷ s) = first (live (i + 1) s) (live-NextIs (i + 1) s) (
    EachWindow-map (Windows s (i + 1)) (Windows (some a ∷ s) i)
      (λ x y (l, r, xl, yr, d).
        (suc l, suc r, omega (arith, xl), omega (arith, yr), there (some a) d))
      (live (i + 1) s) (live-Windows (i + 1) s))
  where
    first :
        (ws : List (ℕ × Text))
        → ((y : ℕ × Text) (rest : List (ℕ × Text))
            → ws ≡ y ∷ rest
            → (k : ℕ) × (y.0 ≡ i + 1 + k) × NextIs s k y.1)
        → EachWindow (Windows (some a ∷ s) i) ws
        → EachWindow (Windows (some a ∷ s) i) ((i, a) ∷ ws)
    first [] next h = tt
    first (y ∷ rest) next h =
        let (k, at, n) = next y rest refl in
        ((0, suc k, omega arith, omega (arith, at), here a n), h)

get_elem?-bound :
    {A : Type 0} (xs : List A) (i : ℕ) (a : A) → get_elem? xs i ≡ some a → i < length xs
get_elem?-bound [] i a h = cc
get_elem?-bound (x ∷ xs) zero a h = omega arith
get_elem?-bound (x ∷ xs) (suc i) a h = omega (arith, get_elem?-bound xs i a h)

module _ {F : Type 0} (f : Floats F) (scores : List F) (tokens : List Text)
    (fit : length tokens ≤ u32_mod) (scored : length tokens ≤ length scores) where
  -- A merge that may be made: of neighbours, into a token.
  abbrev IsMerge : Symbols → Option (ℕ × ℕ × F) → Type 0
  IsMerge s none = Unit
  IsMerge s (some (l, r, score)) =
      (a : Text) × (b : Text) × Adjacent s l r a b × IsKnown tokens (a ++ b)

  -- A step of the search that gives a merge, without a panic.
  abbrev Finds : Symbols → Option (Option (ℕ × ℕ × F)) → Type 0
  Finds s out = (best : Option (ℕ × ℕ × F)) × (out ≡ some best) × IsMerge s best

  consider-Finds :
      (s : Symbols) (l : ℕ) (a : Text) (r : ℕ) (b : Text) (best : Option (ℕ × ℕ × F))
      → Windows s 0 (l, a) (r, b)
      → IsMerge s best
      → Finds s (consider f scores tokens (l, a) (r, b) best)
  unfolding consider
  consider-Finds s l a r b best (l', r', l_at, r_at, near) good =
      elim (Option-cases (token_id tokens (a ++ b))) [
        | inl missing ↦ rw (consider, missing) (best, refl, good)
        | inr (token, found) ↦
            let (score, score_ok) = get_elem?-lt scores token (
              omega (
                arith,
                get_elem?-bound tokens token (a ++ b)
                    (token_id-get tokens (a ++ b) token fit found),
              )) in
            let placed : Adjacent s l r a b =
              subst (λ r. Adjacent s l r a b) {x = r'} {y = r} (omega (arith, r_at))
                (subst (λ l. Adjacent s l r' a b) {x = l'} {y = l} (omega (arith, l_at)) near) in
            rw (consider, found, score_ok)
              (if-cases (λ best. Finds s (some best)) (beats f (l, r, score) best)
                (λ _. (some (l, r, score), refl, (a, b, placed, (token, found))))
                (λ _. (best, refl, good)))
      ]

  scan_windows-Finds :
      (s : Symbols) (ws : List (ℕ × Text)) (best : Option (ℕ × ℕ × F))
      → EachWindow (Windows s 0) ws
      → IsMerge s best
      → Finds s (scan_windows f scores tokens ws best)
  unfolding scan_windows
  scan_windows-Finds s [] best each good = (best, refl, good)
  scan_windows-Finds s (x ∷ []) best each good = (best, refl, good)
  scan_windows-Finds s ((l, a) ∷ (r, b) ∷ rest) best each good =
      let (best', best_ok, good') = consider-Finds s l a r b best each.0 good in
      rw (scan_windows, best_ok) (scan_windows-Finds s ((r, b) ∷ rest) best' each.1 good')

  -- What the loop of merges comes to.
  abbrev pub Merged : Symbols → Option Symbols → Type 1
  Merged s out =
      (t : Symbols) × (out ≡ some t)
      × (concat (flatten t) ≡ concat (flatten s))
      × ((P : Text → Type 0)
          → All P (flatten s)
          → ((u : Text) → IsKnown tokens u → P u)
          → All P (flatten t))

  pub merge_symbols-Merged :
      (fuel : ℕ) (s : Symbols)
      → length (flatten s) < fuel
      → Merged s (merge_symbols f fuel scores tokens s)
  unfolding merge_symbols best_sentencepiece_merge
  merge_symbols-Merged zero s h = elim h [ ]
  merge_symbols-Merged (suc fuel) s h =
      next (scan_windows-Finds s (live 0 s) none (live-Windows 0 s) tt)
        (λ t short. merge_symbols-Merged fuel t short)
    where
      next :
          Finds s (scan_windows f scores tokens (live 0 s) none)
          → ((t : Symbols)
              → length (flatten t) < fuel
              → Merged t (merge_symbols f fuel scores tokens t))
          → Merged s (merge_symbols f (suc fuel) scores tokens s)
      next (none, best_ok, good) again =
          rw (merge_symbols, best_sentencepiece_merge, best_ok) (s, refl, refl, λ P h k. h)
      next (some (l, r, score), best_ok, (a, b, near, known)) again =
          let (text, count, keeps) = Adjacent-Merges near in
          let (t, t_ok, t_text, t_keeps) =
            again (set (set s r none) l (some (a ++ b))) (omega (arith, h, count)) in
          rw (merge_symbols, best_sentencepiece_merge, best_ok, merge_pair-some near)
            (
              t,
              t_ok,
              t_text ∙ text,
              λ P each in_vocabulary.
                  t_keeps P (keeps P each (in_vocabulary (a ++ b) known)) in_vocabulary,
            )
