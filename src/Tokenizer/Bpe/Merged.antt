-- ===== src/Tokenizer/Bpe/Merged.antt =====
-- What `Bpe::encode_word` of src/tokenizer/bpe.rs returns, and that it returns.
use project_willamette.Prelude.{
  ℕ, zero, suc, ◌+◌, ◌≤◌, ◌<◌, ◌≡◌, refl, sym, ap, ◌∙◌, arith, true, Option, none, some, List, [],
  ◌∷◌, ◌++◌, length, ltb, ◌⊎◌, inl, inr, Bool-cases, concat, All, >>=-eq-some,
}
use mathlib.Core.Path.{subst}
use mathlib.Core.List.{append_assoc}
use project_willamette.Tokenizer.Bpe.{
  Symbol, MergeRanks, u32_max, Best, better, scan_pairs, merge_at, merge_loop, encode_word,
}

-- The rank of the pair at an index.
abbrev pub rank_at : MergeRanks → List Symbol → ℕ → Option ℕ
rank_at ranks [] k = none
rank_at ranks (a ∷ []) k = none
rank_at ranks (a ∷ b ∷ rest) zero = ranks a b
rank_at ranks (a ∷ b ∷ rest) (suc k) = rank_at ranks (b ∷ rest) k

-- The scan kept what it started with, and no pair ranks below it.
record Kept (ranks : MergeRanks) (xs : List Symbol) (best result : Best) : Type 0 where
  same : result ≡ best
  none_below : (j s : ℕ) → rank_at ranks xs j ≡ some s → best.0 ≤ s

-- The scan found the pair at `k`, the first of the lowest rank.
record Found (ranks : MergeRanks) (i : ℕ) (xs : List Symbol) (best result : Best) : Type 0 where
  k : ℕ
  index : result.1 ≡ some (i + k)
  rank : rank_at ranks xs k ≡ some result.0
  lower : result.0 < best.0
  least : (j s : ℕ) → rank_at ranks xs j ≡ some s → result.0 ≤ s
  first : (j s : ℕ) → j < k → rank_at ranks xs j ≡ some s → result.0 < s

same_rank : (o : Option ℕ) (s t : ℕ) → o ≡ some s → o ≡ some t → s ≡ t
same_rank o s t e f = cc

module _ (ranks : MergeRanks) (a b : Symbol) (rest : List Symbol) where
  front_or_rest :
      (P : ℕ → Type 0)
      → ((s : ℕ) → ranks a b ≡ some s → P s)
      → ((j s : ℕ) → rank_at ranks (b ∷ rest) j ≡ some s → P s)
      → (j s : ℕ) → rank_at ranks (a ∷ b ∷ rest) j ≡ some s
      → P s
  front_or_rest P front later zero s e = front s e
  front_or_rest P front later (suc j) s e = later j s e

  front_or_before :
      (r k : ℕ)
      → ((s : ℕ) → ranks a b ≡ some s → r < s)
      → ((j s : ℕ) → j < k → rank_at ranks (b ∷ rest) j ≡ some s → r < s)
      → (j s : ℕ) → j < suc k
      → rank_at ranks (a ∷ b ∷ rest) j ≡ some s
      → r < s
  front_or_before r k front later zero s lt e = front s e
  front_or_before r k front later (suc j) s lt e = later j s (omega arith) e

module _ (ranks : MergeRanks) (i : ℕ) (a b : Symbol) (rest : List Symbol) (best result : Best) where
  -- The pair at the front does not rank below what the scan has.
  scan_skip :
      ((s : ℕ) → ranks a b ≡ some s → best.0 ≤ s)
      → Kept ranks (b ∷ rest) best result ⊎ Found ranks (i + 1) (b ∷ rest) best result
      → Kept ranks (a ∷ b ∷ rest) best result ⊎ Found ranks i (a ∷ b ∷ rest) best result
  scan_skip skip (inl h) = inl (record {
    same = h.same;
    none_below = front_or_rest ranks a b rest (λ s. best.0 ≤ s) skip h.none_below;
  })
  scan_skip skip (inr h) = inr (record {
    k = suc h.k;
    index = h.index ∙ ap some {x = i + 1 + h.k} {y = i + suc h.k} (omega arith);
    rank = h.rank;
    lower = h.lower;
    least =
        front_or_rest ranks a b rest (λ s. result.0 ≤ s) (λ s e. omega (arith, skip s e, h.lower))
          h.least;
    first =
        front_or_before ranks a b rest result.0 h.k (λ s e. omega (arith, skip s e, h.lower))
          h.first;
  })

  -- It does.
  scan_take :
      (t : ℕ)
      → ranks a b ≡ some t
      → t < best.0
      → Kept ranks (b ∷ rest) (t, some i) result ⊎ Found ranks (i + 1) (b ∷ rest) (t, some i) result
      → Found ranks i (a ∷ b ∷ rest) best result
  scan_take t e lt (inl h) = record {
    k = 0;
    index = ap (λ (r : Best). r.1) h.same ∙ ap some {x = i} {y = i + 0} (omega arith);
    rank = e ∙ ap (λ (r : Best). some r.0) (sym h.same);
    lower = omega (arith, lt, ap (λ (r : Best). r.0) h.same);
    least =
        front_or_rest ranks a b rest (λ s. result.0 ≤ s)
          (λ s f. omega (arith, ap (λ (r : Best). r.0) h.same, same_rank (ranks a b) s t f e))
          (λ j s f. omega (arith, ap (λ (r : Best). r.0) h.same, h.none_below j s f));
    first = λ j s below f. elim below [ ];
  }
  scan_take t e lt (inr h) = record {
    k = suc h.k;
    index = h.index ∙ ap some {x = i + 1 + h.k} {y = i + suc h.k} (omega arith);
    rank = h.rank;
    lower = omega (arith, h.lower, lt);
    least =
        front_or_rest ranks a b rest (λ s. result.0 ≤ s)
          (λ s f. omega (arith, same_rank (ranks a b) s t f e, h.lower)) h.least;
    first =
        front_or_before ranks a b rest result.0 h.k
          (λ s f. omega (arith, same_rank (ranks a b) s t f e, h.lower)) h.first;
  }

better-cases :
    (o : Option ℕ) (i : ℕ) (best : Best)
    → ((better o i best ≡ best) × ((s : ℕ) → o ≡ some s → best.0 ≤ s))
      ⊎ ((t : ℕ) × (o ≡ some t) × (t < best.0) × (better o i best ≡ (t, some i)))
unfolding better
better-cases none i best = inl (refl, λ s e. cc)
better-cases (some t) i best = elim (Bool-cases (ltb t best.0)) [
  | inl lt ↦ inr (t, refl, ground arith, rw lt refl)
  | inr ge ↦ inl (rw ge refl, λ s e. ground arith)
]

-- Of the pairs that rank below `best.0`, the scan finds the first of the lowest rank.
scan_pairs-least :
    (ranks : MergeRanks) (i : ℕ) (xs : List Symbol) (best : Best)
    → Kept ranks xs best (scan_pairs ranks i xs best)
      ⊎ Found ranks i xs best (scan_pairs ranks i xs best)
unfolding scan_pairs
scan_pairs-least ranks i [] best = inl (record { same = refl; none_below = λ j s e. cc })
scan_pairs-least ranks i (a ∷ []) best = inl (record { same = refl; none_below = λ j s e. cc })
scan_pairs-least ranks i (a ∷ b ∷ rest) best =
    let result = scan_pairs ranks (i + 1) (b ∷ rest) (better (ranks a b) i best) in
    let h = scan_pairs-least ranks (i + 1) (b ∷ rest) (better (ranks a b) i best) in
    elim (better-cases (ranks a b) i best) [
      | inl (same, skip) ↦ scan_skip ranks i a b rest best result skip (
          subst (λ x. Kept ranks (b ∷ rest) x result ⊎ Found ranks (i + 1) (b ∷ rest) x result) same
            h)
      | inr (t, e, lt, taken) ↦ inr (
          scan_take ranks i a b rest best result t e lt (
            subst (λ x. Kept ranks (b ∷ rest) x result ⊎ Found ranks (i + 1) (b ∷ rest) x result)
              taken h))
    ]

-- A merge of a pair that has a rank stays in range, keeps the text and shortens the list.
merge_at-keeps :
    (ranks : MergeRanks) (k s : ℕ) (xs : List Symbol)
    → rank_at ranks xs k ≡ some s
    → (ys : List Symbol) × (merge_at k xs ≡ some ys)
      × (concat ys ≡ concat xs)
      × (suc (length ys) ≡ length xs)
unfolding merge_at
merge_at-keeps ranks k s [] e = cc
merge_at-keeps ranks k s (a ∷ []) e = cc
merge_at-keeps ranks zero s (a ∷ b ∷ rest) e =
    ((a ++ b) ∷ rest, refl, append_assoc a b (concat rest), refl)
merge_at-keeps ranks (suc k) s (a ∷ b ∷ rest) e =
    let (ys, merged, text, len) = merge_at-keeps ranks k s (b ∷ rest) e in
    (a ∷ ys, rw merged refl, ap (λ t. a ++ t) text, ap suc len)

-- No pair of the list ranks below `u32::MAX`.
pub IsFinal : MergeRanks → List Symbol → Type 0
IsFinal ranks xs = (k s : ℕ) → rank_at ranks xs k ≡ some s → u32_max ≤ s

short-IsFinal :
    (ranks : MergeRanks) (xs : List Symbol) → ltb (length xs) 2 ≡ true → IsFinal ranks xs
unfolding IsFinal
short-IsFinal ranks [] e k s h = cc
short-IsFinal ranks (a ∷ []) e k s h = cc
short-IsFinal ranks (a ∷ b ∷ xs) e k s h = ground arith

abbrev pub Merges : MergeRanks → List Symbol → Option (List Symbol) → Type 0
Merges ranks symbols out =
    (merged : List Symbol) × (out ≡ some merged)
    × (concat merged ≡ concat symbols)
    × (length merged ≤ length symbols)
    × IsFinal ranks merged

merge_loop-Merges :
    (fuel : ℕ) (ranks : MergeRanks) (symbols : List Symbol)
    → length symbols ≤ fuel
    → 2 ≤ length symbols
    → Merges ranks symbols (merge_loop fuel ranks symbols)
unfolding merge_loop
merge_loop-Merges zero ranks symbols le long = ground arith
merge_loop-Merges (suc fuel) ranks symbols le long =
    elim (scan_pairs-least ranks 0 symbols (u32_max, none)) [
      | inl h ↦
          rw (merge_loop, ap (λ (r : Best). r.1) h.same)
            (symbols, refl, refl, omega arith, unfold IsFinal in h.none_below)
      | inr h ↦
          let (ys, merged, text, len) = merge_at-keeps ranks h.k _ symbols h.rank in
          let at : merge_at (0 + h.k) symbols ≡ some ys =
            ap (λ k. merge_at k symbols) {x = 0 + h.k} {y = h.k} (omega arith) ∙ merged in
          elim (Bool-cases (ltb (length ys) 2)) [
            | inl short ↦
                rw (merge_loop, h.index, at, short)
                  (ys, refl, text, omega (arith, len), short-IsFinal ranks ys short)
            | inr more ↦
                let (zs, out, text', le', final) =
                  merge_loop-Merges fuel ranks ys (omega (arith, len, le)) (ground arith) in
                rw (merge_loop, h.index, at, more)
                  (zs, out, text' ∙ text, omega (arith, len, le'), final)
          ]
    ]

-- `encode_word` ends without a panic; its symbols spell the same text, are no more than it was
-- given, and no pair of them has a rank below `u32::MAX`.
pub encode_word-Merges :
    (ranks : MergeRanks) (symbols : List Symbol) → Merges ranks symbols (encode_word ranks symbols)
unfolding encode_word
encode_word-Merges ranks symbols = elim (Bool-cases (ltb (length symbols) 2)) [
  | inl short ↦ rw short (symbols, refl, refl, omega arith, short-IsFinal ranks symbols short)
  | inr long ↦
      rw long (merge_loop-Merges (length symbols) ranks symbols (omega arith) (ground arith))
]

pub some-injective {ℓ} : {A : Type ℓ} {a b : A} → some a ≡ some b → a ≡ b
some-injective p = cc

-- What holds of the symbols given and of every merged pair holds of the symbols returned.
merge_at-All :
    (P : Symbol → Type 0) (ranks : MergeRanks)
    → ((a b : Symbol) (r : ℕ) → ranks a b ≡ some r → P (a ++ b))
    → (k s : ℕ) (xs ys : List Symbol) → rank_at ranks xs k ≡ some s
    → merge_at k xs ≡ some ys
    → All P xs
    → All P ys
unfolding merge_at
merge_at-All P ranks closed k s [] ys e m h = cc
merge_at-All P ranks closed k s (a ∷ []) ys e m h = cc
merge_at-All P ranks closed zero s (a ∷ b ∷ rest) ys e m h =
    subst (All P) (some-injective m) (closed a b s e, h.1.1)
merge_at-All P ranks closed (suc k) s (a ∷ b ∷ rest) ys e m h =
    let (zs, zs_ok, z_eq) = >>=-eq-some (merge_at k (b ∷ rest)) (λ zs. some (a ∷ zs)) m in
    subst (All P) (some-injective z_eq)
      (h.0, merge_at-All P ranks closed k s (b ∷ rest) zs e zs_ok h.1)

merge_loop-All :
    (P : Symbol → Type 0) (fuel : ℕ) (ranks : MergeRanks)
    → ((a b : Symbol) (r : ℕ) → ranks a b ≡ some r → P (a ++ b))
    → (xs out : List Symbol) → merge_loop fuel ranks xs ≡ some out
    → All P xs
    → All P out
unfolding merge_loop
merge_loop-All P zero ranks closed xs out e h = cc
merge_loop-All P (suc fuel) ranks closed xs out e h =
    elim (scan_pairs-least ranks 0 xs (u32_max, none)) [
      | inl k ↦
          subst (All P) (some-injective (rw (merge_loop, ap (λ (r : Best). r.1) k.same) at e)) h
      | inr k ↦
          let found : scan_index ≡ some k.k =
            k.index ∙ ap some {x = 0 + k.k} {y = k.k} (omega arith) in
          let (ys, merged, e') = >>=-eq-some (merge_at k.k xs) _ (rw (merge_loop, found) at e) in
          let kept = merge_at-All P ranks closed k.k _ xs ys k.rank merged h in
          elim (Bool-cases (ltb (length ys) 2)) [
            | inl short ↦ subst (All P) (some-injective (rw short at e')) kept
            | inr more ↦ merge_loop-All P fuel ranks closed ys out (rw more at e') kept
          ]
    ]
  where
    scan_index : Option ℕ
    scan_index = (scan_pairs ranks 0 xs (u32_max, none)).1

pub encode_word-All :
    (P : Symbol → Type 0) (ranks : MergeRanks)
    → ((a b : Symbol) (r : ℕ) → ranks a b ≡ some r → P (a ++ b))
    → (xs out : List Symbol) → encode_word ranks xs ≡ some out
    → All P xs
    → All P out
unfolding encode_word
encode_word-All P ranks closed xs out e h = elim (Bool-cases (ltb (length xs) 2)) [
  | inl short ↦ subst (All P) (some-injective (rw short at e)) h
  | inr long ↦ merge_loop-All P (length xs) ranks closed xs out (rw long at e) h
]
