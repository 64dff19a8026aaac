-- ===== src/Sampling/Filters.antt =====
-- src/model/sampler.rs: `apply_top_k`, `softmax_to_probs` and `apply_top_p`; src/model/lm_head.rs:
-- `argmax`.
use Prim.Native.Nat.{Ordering}
use project_willamette.Prelude.{
  ℕ, zero, suc, ◌+◌, ◌-◌, ◌%◌, ◌^◌, Bool, true, false, not, Option, none, some, List, [], ◌∷◌, map,
  length, replicate, get_elem?, set, min, ◌==◌, if◌then◌else◌, ◌>>=◌,
}
use project_willamette.Sampling.State.{Floats}

module _ {F : Type 0} (f : Floats F) where
  -- The index and the value of the largest so far, `i` being the index of the next.
  unfoldable pub best_from : ℕ → ℕ × F → List F → ℕ × F
  best_from i best [] = best
  best_from i best (v ∷ vs) = best_from (i + 1) (if f.less best.1 v then (i, v) else best) vs

  unfoldable pub argmax : List F → Option ℕ
  argmax [] = none
  argmax (v ∷ vs) = some ((best_from 1 (0, v) vs).0 % 2 ^ 32)

  -- `partial_cmp(..).unwrap_or(Ordering::Equal)`
  unfoldable pub unwrap_or_equal : Option Ordering → Ordering
  unwrap_or_equal none = Ordering.eq
  unwrap_or_equal (some o) = o

  -- The comparison of both sorts, of indices into the values; `none` is an index out of range.
  unfoldable pub compare_descending : List F → ℕ → ℕ → Option Ordering
  compare_descending values a b = do
    at_b ← get_elem? values b
    at_a ← get_elem? values a
    some (unwrap_or_equal (f.partial_cmp at_b at_a))

  -- `(i..i + n).collect()`
  unfoldable pub range_from : ℕ → ℕ → List ℕ
  range_from i zero = []
  range_from i (suc n) = i ∷ range_from (i + 1) n

  -- The indices of the values, sorted.
  unfoldable pub descending : List F → Option (List ℕ)
  descending values = f.sort_unstable_by (compare_descending values) (range_from 0 (length values))

  abbrev below_threshold : F → F → F
  below_threshold threshold v = if f.less v threshold then f.neg_infinity else v

  -- `none` is the panic of an index out of range, or of the sort.
  unfoldable pub apply_top_k : ℕ → List F → Option (List F)
  apply_top_k wanted logits =
      let k = min wanted (length logits) in
      if k == 0
      then some (map (λ v. f.neg_infinity) logits)
      else if k == length logits
      then some logits
      else (do
        idx ← descending logits
        at ← get_elem? idx (k - 1)
        threshold ← get_elem? logits at
        some (map (below_threshold threshold) logits))

  unfoldable pub largest : F → List F → F
  largest m [] = m
  largest m (v ∷ vs) = largest (if f.less m v then v else m) vs

  unfoldable pub sum_from : F → List F → F
  sum_from acc [] = acc
  sum_from acc (v ∷ vs) = sum_from (f.add acc v) vs

  -- The multiplication by the inverse of the sum.
  unfoldable pub normalized : F → List F → List F
  normalized sum out =
      if f.less f.zero_f32 sum then map (λ v. f.mul v (f.div f.one sum)) out else out

  unfoldable pub softmax_to_probs : List F → List F
  softmax_to_probs [] = []
  softmax_to_probs (v ∷ vs) =
      let logits = v ∷ vs in
      let max = largest f.neg_infinity logits in
      let out = map (λ v. f.exp (f.sub v max)) logits in
      if not (f.is_finite max)
      then replicate (length logits) f.zero_f32
      else normalized (sum_from f.zero_f32 out) out

  -- One for the index `i` and zero for the others, `j` being the index of the first.
  unfoldable pub only_at : ℕ → ℕ → List F → List F
  only_at i j [] = []
  only_at i j (v ∷ vs) = (if j == i then f.one else f.zero_f32) ∷ only_at i (j + 1) vs

  -- The marks that the loop over the sorted indices leaves.
  unfoldable pub mark_kept : F → List F → F → List Bool → List ℕ → Option (List Bool)
  mark_kept p probs acc keep [] = some keep
  mark_kept p probs acc keep (i ∷ idx) = do
    v ← get_elem? probs i
    if f.less_eq p (f.add acc v)
        then some (set keep i true)
        else mark_kept p probs (f.add acc v) (set keep i true) idx

  unfoldable pub drop_unkept : List Bool → List F → List F
  drop_unkept (k ∷ keep) (v ∷ vs) = (if k then v else f.zero_f32) ∷ drop_unkept keep vs
  drop_unkept _ vs = vs

  unfoldable pub apply_top_p : F → List F → Option (List F)
  apply_top_p p [] = some []
  apply_top_p p (v ∷ vs) =
      let probs = v ∷ vs in
      if f.less_eq p f.zero_f32
      then some (only_at (best_from 1 (0, v) vs).0 0 probs)
      else if f.less_eq f.one p
      then some probs
      else (do
        idx ← descending probs
        keep ← mark_kept p probs f.zero_f32 (replicate (length probs) false) idx
        some (normalized (sum_from f.zero_f32 (drop_unkept keep probs)) (drop_unkept keep probs)))
