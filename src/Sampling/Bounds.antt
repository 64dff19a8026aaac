-- ===== src/Sampling/Bounds.antt =====
-- What `sample` of src/model/sampler.rs can give: an index of a logit.
use project_willamette.Prelude.{
  ℕ, suc, ◌>>=◌, ◌+◌, ◌-◌, ◌%◌, ◌^◌, ◌≤◌, ◌<◌, ◌≡◌, refl, sym, ap, ◌∙◌, arith, Bool, true, false,
  not, ◌||◌, Option, none, some, List, [], ◌∷◌, map, length, length-map, length-set,
  length-replicate, replicate, ◌&&◌, get_elem?, set, min, ltb, ◌==◌, if◌then◌else◌, if-cases,
  Bool-cases, Option-cases, inl, inr,
}
use native.Mathlib.Nat.{mod-le}
use mathlib.Core.Path.{subst}
use project_willamette.Gguf.Result.{ok}
use project_willamette.Tokenizer.Bpe.Merged.{some-injective}
use project_willamette.Gguf.Views.Checked.{ok-injective}
use project_willamette.Sampling.State.{
  Floats, Sampler, contains_id, is_greedy, penalize, penalized, penalize_id,
  apply_repetition_penalty, apply_temperature, next_u64, next_unit,
}
use project_willamette.Sampling.Filters.{
  argmax, best_from, descending, apply_top_k, apply_top_p, drop_unkept, largest, mark_kept,
  normalized, only_at, softmax_to_probs,
}
use project_willamette.Sampling.Sample.{reached_at, multinomial, filter_k, filter_p, sample}

module _ {F : Type 0} (f : Floats F) where
  best_from-bound :
      (i n : ℕ) (best : ℕ × F) (vs : List F)
      → best.0 < n
      → i + length vs ≤ n
      → (best_from f i best vs).0 < n
  unfolding best_from
  best_from-bound i n best [] h k = h
  best_from-bound i n best (v ∷ vs) h k =
      best_from-bound (i + 1) n (if f.less best.1 v then (i, v) else best) vs
        (if-cases (λ (b : ℕ × F). b.0 < n) (f.less best.1 v) (λ _. omega arith) (λ _. h))
        (omega arith)

  pub argmax-bound : (logits : List F) (id : ℕ) → argmax f logits ≡ some id → id < length logits
  unfolding argmax
  argmax-bound [] id h = cc
  argmax-bound (v ∷ vs) id h = omega (
    arith,
    some-injective h,
    mod-le (best_from f 1 (0, v) vs).0 (2 ^ 32),
    best_from-bound 1 (length (v ∷ vs)) (0, v) vs (omega arith) (omega arith),
  )

  reached_at-bound :
      (r acc : F) (i : ℕ) (ps : List F) (id : ℕ)
      → reached_at f r acc i ps ≡ some id
      → id < i + length ps
  unfolding reached_at
  reached_at-bound r acc i [] id h = cc
  reached_at-bound r acc i (p ∷ ps) id h = elim (Bool-cases (f.less_eq r (f.add acc p))) [
    | inl stop ↦ omega (arith, mod-le i (2 ^ 32), some-injective (rw stop at h))
    | inr more ↦ omega (arith, reached_at-bound r (f.add acc p) (i + 1) ps id (rw more at h))
  ]

  -- The id is an index, and only the random numbers change.
  abbrev pub Drawn : Sampler F → List F → ℕ × Sampler F → Type 0
  Drawn s xs (id, t) = (id < length xs) × (t.params ≡ s.params) × (t.history ≡ s.history)

  drawn :
      (s : Sampler F) (n id : ℕ) (xs : List F) (o : ℕ × Sampler F)
      → ok (id, record s { rng = n }) ≡ ok o
      → id < length xs
      → Drawn s xs o
  drawn s n id xs o h lt = subst (Drawn s xs) (sym (ok-injective h)) (lt, refl, refl)

  multinomial-Drawn :
      (s : Sampler F) (probs : List F) (o : ℕ × Sampler F)
      → f.less_eq (f.sum []) f.zero_f32 ≡ true
      → multinomial f s probs ≡ ok o
      → Drawn s probs o
  unfolding multinomial
  multinomial-Drawn s [] o empty h = cc (rw (multinomial, empty) at h)
  multinomial-Drawn s (p ∷ ps) o empty h =
      elim (Bool-cases
        (f.less_eq (f.sum (p ∷ ps)) f.zero_f32 || not (f.is_finite (f.sum (p ∷ ps))))) [
          | inl bad ↦ cc (rw (multinomial, bad) at h)
          | inr fine ↦
              elim (Option-cases
                (reached_at f (f.mul (next_unit f s) (f.sum (p ∷ ps))) f.zero_f32 0 (p ∷ ps))) [
                  | inr (i, at) ↦
                      drawn s (next_u64 s.rng) i (p ∷ ps) o (rw (multinomial, fine, at) at h)
                        (omega (arith, reached_at-bound _ f.zero_f32 0 (p ∷ ps) i at))
                  | inl past ↦
                      drawn s (next_u64 s.rng) ((length (p ∷ ps) - 1) % 2 ^ 32) (p ∷ ps) o
                        (rw (multinomial, fine, past) at h)
                        (omega (arith, mod-le (length (p ∷ ps) - 1) (2 ^ 32)))
                ]
        ]

  -- A filter that keeps the number of values, where it does not panic.
  abbrev Resized : Option (List F) → List F → Type 0
  Resized out xs = (ys : List F) → out ≡ some ys → length ys ≡ length xs

  some-Resized : (ys xs : List F) → length ys ≡ length xs → Resized (some ys) xs
  some-Resized ys xs same zs h = ap length (sym (some-injective h)) ∙ same

  >>=-Resized :
      {A : Type 0} (first : Option A) (next : A → Option (List F)) (xs : List F)
      → ((a : A) → Resized (next a) xs)
      → Resized (first >>= next) xs
  >>=-Resized none next xs each ys h = cc
  >>=-Resized (some a) next xs each ys h = each a ys h

  apply_top_k-Resized : (k : ℕ) (xs : List F) → Resized (apply_top_k f k xs) xs
  unfolding apply_top_k
  apply_top_k-Resized k xs =
      if-cases (λ out. Resized out xs) (min k (length xs) == 0)
        (λ _. some-Resized _ xs (length-map _ xs))
        (λ _.
          if-cases (λ out. Resized out xs) (min k (length xs) == length xs)
            (λ _. some-Resized xs xs refl)
            (λ _. >>=-Resized (descending f xs) _ xs λ idx.
              >>=-Resized (get_elem? idx (min k (length xs) - 1)) _ xs λ at.
                >>=-Resized (get_elem? xs at) _ xs
                  λ threshold. some-Resized _ xs (length-map _ xs)))

  normalized-length : (sum : F) (xs : List F) → length (normalized f sum xs) ≡ length xs
  unfolding normalized
  normalized-length sum xs =
      if-cases (λ (ys : List F). length ys ≡ length xs) (f.less f.zero_f32 sum)
        (λ _. length-map _ xs) (λ _. refl)

  softmax_to_probs-length : (xs : List F) → length (softmax_to_probs f xs) ≡ length xs
  unfolding softmax_to_probs
  softmax_to_probs-length [] = refl
  softmax_to_probs-length (v ∷ vs) =
      let max = largest f f.neg_infinity (v ∷ vs) in
      if-cases (λ (ys : List F). length ys ≡ suc (length vs)) (not (f.is_finite max))
        (λ _. length-replicate (suc (length vs)) f.zero_f32)
        (λ _. normalized-length _ (map (λ w. f.exp (f.sub w max)) (v ∷ vs)) ∙ length-map _ (v ∷ vs))

  only_at-length : (i j : ℕ) (xs : List F) → length (only_at f i j xs) ≡ length xs
  unfolding only_at
  only_at-length i j [] = refl
  only_at-length i j (v ∷ vs) = ap suc (only_at-length i (j + 1) vs)

  drop_unkept-length : (keep : List Bool) (xs : List F) → length (drop_unkept f keep xs) ≡ length xs
  unfolding drop_unkept
  drop_unkept-length [] xs = refl
  drop_unkept-length (k ∷ keep) [] = refl
  drop_unkept-length (k ∷ keep) (v ∷ vs) = ap suc (drop_unkept-length keep vs)

  apply_top_p-Resized : (p : F) (xs : List F) → Resized (apply_top_p f p xs) xs
  unfolding apply_top_p
  apply_top_p-Resized p [] = some-Resized [] [] refl
  apply_top_p-Resized p (v ∷ vs) =
      if-cases (λ out. Resized out (v ∷ vs)) (f.less_eq p f.zero_f32)
        (λ _. some-Resized _ (v ∷ vs) (only_at-length _ 0 (v ∷ vs)))
        (λ _.
          if-cases (λ out. Resized out (v ∷ vs)) (f.less_eq f.one p)
            (λ _. some-Resized (v ∷ vs) (v ∷ vs) refl)
            (λ _. >>=-Resized (descending f (v ∷ vs)) _ (v ∷ vs) λ idx.
              >>=-Resized
                (mark_kept f p (v ∷ vs) f.zero_f32 (replicate (length (v ∷ vs)) false) idx) _
                (v ∷ vs)
                λ keep. some-Resized _ (v ∷ vs) (
                  normalized-length _ (drop_unkept f keep (v ∷ vs))
                  ∙ drop_unkept-length keep (v ∷ vs))))

  penalize-length :
      (r : F) (ids seen : List ℕ) (xs : List F) → length (penalize f r ids (seen, xs)) ≡ length xs
  unfolding penalize penalize_id
  penalize-length r [] seen xs = refl
  penalize-length r (id ∷ ids) seen xs =
      elim (Bool-cases (ltb id (length xs) && not (contains_id seen id))) [
        | inr skip ↦ rw (penalize_id, skip) (penalize-length r ids seen xs)
        | inl go ↦
            rw (penalize_id, go) (penalize-length r ids (id ∷ seen) _ ∙ rewritten (get_elem? xs id))
      ]
    where
      rewritten :
          (o : Option F)
          → length (elim o [ none ↦ xs | some l ↦ set xs id (penalized f r l) ]) ≡ length xs
      rewritten none = refl
      rewritten (some l) = length-set xs id (penalized f r l)

  apply_repetition_penalty-length :
      (s : Sampler F) (xs : List F) → length (apply_repetition_penalty f s xs) ≡ length xs
  unfolding apply_repetition_penalty
  apply_repetition_penalty-length s xs = elim (Option-cases s.params.repetition_penalty) [
    | inl off ↦ rw (apply_repetition_penalty, off) refl
    | inr (r, on) ↦
        rw (apply_repetition_penalty, on)
          (if-cases (λ (ys : List F). length ys ≡ length xs) _ (λ _. refl)
            (λ _. penalize-length r s.history [] xs))
  ]

  apply_temperature-length :
      (s : Sampler F) (xs : List F) → length (apply_temperature f s xs) ≡ length xs
  unfolding apply_temperature
  apply_temperature-length s xs =
      let t = s.params.temperature in
      if-cases (λ (ys : List F). length ys ≡ length xs)
        (f.less_eq t f.zero_f32 || f.less (f.abs (f.sub t f.one)) f.tiny)
        {y = map (λ v. f.mul v (f.div f.one t)) xs} (λ _. refl) (λ _. length-map _ xs)

  filter_k-Resized : (k : Option ℕ) (xs : List F) → Resized (filter_k f k xs) xs
  unfolding filter_k
  filter_k-Resized none xs = some-Resized xs xs refl
  filter_k-Resized (some k) xs = apply_top_k-Resized k xs

  filter_p-Resized : (p : Option F) (xs : List F) → Resized (filter_p f p xs) xs
  unfolding filter_p
  filter_p-Resized none xs = some-Resized xs xs refl
  filter_p-Resized (some p) xs = apply_top_p-Resized p xs

  -- The scaled logits that the filters start from.
  abbrev pub scaled_logits : Sampler F → List F → List F
  scaled_logits s logits = apply_temperature f s (apply_repetition_penalty f s logits)

  scaled_logits-length :
      (s : Sampler F) (logits : List F) → length (scaled_logits s logits) ≡ length logits
  scaled_logits-length s logits =
      apply_temperature-length s (apply_repetition_penalty f s logits)
      ∙ apply_repetition_penalty-length s logits

-- If the sum of no values is at most zero, an id that `sample` gives is the index of a logit, and of the
-- sampler it changes the random numbers alone, whatever the sort does.
pub sample-Drawn :
    {F : Type 0} (f : Floats F) (s : Sampler F) (logits : List F) (o : ℕ × Sampler F)
    → f.less_eq (f.sum []) f.zero_f32 ≡ true
    → sample f s logits ≡ some (ok o)
    → Drawn f s logits o
unfolding sample
sample-Drawn f s logits o empty h = elim (Bool-cases (is_greedy f s.params)) [
  | inl greedy ↦ elim (Option-cases (argmax f logits)) [
    | inl none_at ↦ cc (rw (sample, greedy, none_at) at h)
    | inr (id, at) ↦
        let runs : sample f s logits ≡ some (ok (id, s)) = rw (sample, greedy, at) refl in
        let same : (id, s) ≡ o = sym (ok-injective (some-injective (sym runs ∙ h))) in
        subst (Drawn f s logits) same (argmax-bound f logits id at, refl, refl)
  ]
  | inr random ↦ elim (Option-cases (filter_k f s.params.top_k (scaled_logits f s logits))) [
    | inl panic ↦ cc (rw (sample, random, panic) at h)
    | inr (kept, kept_ok) ↦
        elim (Option-cases (filter_p f s.params.top_p (softmax_to_probs f kept))) [
          | inl panic ↦ cc (rw (sample, random, kept_ok, panic) at h)
          | inr (probs, probs_ok) ↦
              let runs : sample f s logits ≡ some (multinomial f s probs) =
                rw (sample, random, kept_ok, probs_ok) refl in
              let (lt, params, history) =
                multinomial-Drawn f s probs o empty (some-injective (sym runs ∙ h)) in
              (
                omega (
                  arith,
                  lt,
                  filter_p-Resized f s.params.top_p (softmax_to_probs f kept) probs probs_ok,
                  softmax_to_probs-length f kept,
                  filter_k-Resized f s.params.top_k (scaled_logits f s logits) kept kept_ok,
                  scaled_logits-length f s logits,
                ),
                params,
                history,
              )
        ]
  ]
]
