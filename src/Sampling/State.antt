-- ===== src/Sampling/State.antt =====
-- src/model/sampler.rs: the random numbers, the parameters and the state of the sampler, and its history
-- with the penalty on it.
use Prim.Native.Nat.{Ordering, bit_xor}
use project_willamette.Prelude.{
  ℕ, ◌*◌, ◌/◌, ◌%◌, ◌^◌, Bool, false, not, ◌&&◌, ◌||◌, Option, none, some, List, [], ◌∷◌, ◌++◌, map,
  length, take, get_elem?, set, ltb, ◌==◌, if◌then◌else◌, is_some, u64_mod,
}

-- The operations of `f32`, and what the code takes from the standard library for slices of them.
pub record Floats (F : Type 0) : Type 0 where
  pub zero_f32 : F
  pub one : F
  -- 1e-9
  pub tiny : F
  pub neg_infinity : F
  pub of_nat : ℕ → F
  pub abs : F → F
  pub exp : F → F
  pub add : F → F → F
  pub sub : F → F → F
  pub mul : F → F → F
  pub div : F → F → F
  -- `a < b` and `a <= b`
  pub less : F → F → Bool
  pub less_eq : F → F → Bool
  pub is_finite : F → Bool
  -- `iter().sum()`
  pub sum : List F → F
  pub partial_cmp : F → F → Option Ordering
  -- `sort_unstable_by` of a slice of indices. The comparison may panic, and so may the sort: `none`.
  pub sort_unstable_by : (ℕ → ℕ → Option Ordering) → List ℕ → Option (List ℕ)

-- `XorShift64::new` and `next_u64`, whose result is also the new state.
unfoldable pub seeded : ℕ → ℕ
seeded seed = if seed == 0 then 0xdead_beef_cafe_babe else seed

unfoldable pub next_u64 : ℕ → ℕ
next_u64 state =
    let x = bit_xor state (state * 2 ^ 13 % u64_mod) in
    let y = bit_xor x (x / 2 ^ 7) in bit_xor y (y * 2 ^ 17 % u64_mod)

pub record SamplingParams (F : Type 0) : Type 0 where
  pub temperature : F
  pub top_k : Option ℕ
  pub top_p : Option F
  pub repetition_penalty : Option F
  pub seed : ℕ

pub record Sampler (F : Type 0) : Type 0 where
  pub params : SamplingParams F
  pub rng : ℕ
  pub history : List ℕ

-- `SamplerCheckpoint`: the state of the random numbers and the length of the history.
pub record SamplerCheckpoint : Type 0 where
  pub rng_state : ℕ
  pub history_len : ℕ

unfoldable pub contains_id : List ℕ → ℕ → Bool
contains_id [] id = false
contains_id (x ∷ xs) id = x == id || contains_id xs id

module _ {F : Type 0} where
  unfoldable pub new_sampler : SamplingParams F → Sampler F
  new_sampler params = record { params = params; rng = seeded params.seed; history = [] }

  unfoldable pub observe : Sampler F → ℕ → Sampler F
  observe s id = record s { history = s.history ++ id ∷ [] }

  unfoldable pub checkpoint : Sampler F → SamplerCheckpoint
  checkpoint s = record { rng_state = s.rng; history_len = length s.history }

  unfoldable pub rollback : Sampler F → SamplerCheckpoint → Sampler F
  rollback s c = record s { rng = c.rng_state; history = take c.history_len s.history }

  module _ (f : Floats F) where
    unfoldable pub is_greedy : SamplingParams F → Bool
    is_greedy params =
        f.less (f.abs params.temperature) f.tiny
        && (not (is_some params.top_k)
            && (not (is_some params.top_p) && not (is_some params.repetition_penalty)))

    abbrev pub greedy : SamplingParams F
    greedy = record {
      temperature = f.zero_f32;
      top_k = none;
      top_p = none;
      repetition_penalty = none;
      seed = 0xabad_1dea;
    }

    -- A positive logit is divided, and any other is multiplied.
    unfoldable pub penalized : F → F → F
    penalized r l = if f.less f.zero_f32 l then f.div l r else f.mul l r

    -- One round of the loop of `apply_repetition_penalty`, on the set of penalized ids and the logits.
    unfoldable pub penalize_id : F → ℕ → List ℕ × List F → List ℕ × List F
    penalize_id r id (seen, logits) =
        if ltb id (length logits) && not (contains_id seen id)
        then (
          id ∷ seen,
          elim (get_elem? logits id) [ none ↦ logits | some l ↦ set logits id (penalized r l) ],
        )
        else (seen, logits)

    unfoldable pub penalize : F → List ℕ → List ℕ × List F → List F
    penalize r [] (seen, logits) = logits
    penalize r (id ∷ ids) (seen, logits) = penalize r ids (penalize_id r id (seen, logits))

    unfoldable pub apply_repetition_penalty : Sampler F → List F → List F
    apply_repetition_penalty s logits = elim s.params.repetition_penalty [
      | none ↦ logits
      | some r ↦
          if f.less_eq r f.zero_f32 || f.less (f.abs (f.sub r f.one)) f.tiny
          then logits
          else penalize r s.history ([], logits)
    ]

    unfoldable pub apply_temperature : Sampler F → List F → List F
    apply_temperature s logits =
        let t = s.params.temperature in
        if f.less_eq t f.zero_f32 || f.less (f.abs (f.sub t f.one)) f.tiny
        then logits
        else map (λ v. f.mul v (f.div f.one t)) logits

    unfoldable pub next_unit : Sampler F → F
    next_unit s = f.div (f.of_nat (next_u64 s.rng / 2 ^ 40)) (f.of_nat (2 ^ 24))
