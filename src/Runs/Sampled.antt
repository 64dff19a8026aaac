-- ===== src/Runs/Sampled.antt =====
-- A small model, whose numbers are hundredths, sampled from and generated with.
use Prim.Native.Nat.{Ordering, compare}
use project_willamette.Prelude.{
  ℕ, zero, suc, ◌+◌, ◌-◌, ◌*◌, ◌/◌, ◌%◌, ◌^◌, ◌≤◌, ◌<◌, ◌≡◌, ◌↔◌, refl, ap, arith, Bool, true,
  false, Option, none, some, List, [], ◌∷◌, ◌++◌, length, get_elem?, All, leb, ltb,
}
use project_willamette.Gguf.Result.{ok, with_sampler}
use project_willamette.Generation.Run.{Tick}
use project_willamette.Prelude
use project_willamette.Generation.Budget
use project_willamette.Generation.Loops
use project_willamette.Sampling.Filters
use project_willamette.Generation.Budget.{
  validate_generation_budget, validate_generation_budget_iff,
}
use project_willamette.Generation.Loops.{
  Model, GenerationResult, greedy_generate_with_cache, generate_with_cache_and_sampler,
  generate_with_cache_and_sampler_with_stats,
}
use project_willamette.Generation.Greedy.{
  ids_of, unnamed_run, generate_with_cache_and_sampler-greedy,
}
use project_willamette.Generation.Limits.{guarded, generate-guarded}
use project_willamette.Generation.Output.{IsReported, generate-IsReported}
use project_willamette.Sampling.State
use project_willamette.Sampling.Sample
use project_willamette.Sampling.State.{
  Floats, Sampler, SamplingParams, new_sampler, observe, contains_id, checkpoint, rollback, greedy,
  is_greedy, apply_repetition_penalty,
}
use project_willamette.Sampling.Sample.{sample}
use project_willamette.Sampling.Penalty.{described, apply_repetition_penalty-get_elem?}
use project_willamette.Sampling.Bounds.{Drawn, sample-Drawn}
use project_willamette.Sampling.Rollback.{unused, observed, rollback-checkpoint}

abbrev total : List ℕ → ℕ
total [] = 0
total (x ∷ xs) = x + total xs

-- A sort by insertion, which stops where a comparison panics.
abbrev insert : (ℕ → ℕ → Option Ordering) → ℕ → List ℕ → Option (List ℕ)
insert cmp x [] = some (x ∷ [])
insert cmp x (y ∷ ys) = elim (cmp x y) [
  | none ↦ none
  | some Ordering.gt ↦ elim (insert cmp x ys) [ none ↦ none | some zs ↦ some (y ∷ zs) ]
  | some _ ↦ some (x ∷ (y ∷ ys))
]

abbrev sort : (ℕ → ℕ → Option Ordering) → List ℕ → Option (List ℕ)
sort cmp [] = some []
sort cmp (x ∷ xs) = elim (sort cmp xs) [ none ↦ none | some ys ↦ insert cmp x ys ]

-- `f32` as hundredths, none of them negative.
abbrev pub naturals : Floats ℕ
naturals = record {
  zero_f32 = 0;
  one = 100;
  tiny = 1;
  neg_infinity = 0;
  of_nat = λ n. n * 100;
  abs = λ n. n;
  exp = λ n. n + 100;
  add = λ a b. a + b;
  sub = λ a b. a - b;
  mul = λ a b. a * b / 100;
  div = λ a b. a * 100 / b;
  less = ltb;
  less_eq = leb;
  is_finite = λ n. true;
  sum = total;
  partial_cmp = λ a b. some (compare a b);
  sort_unstable_by = sort;
}

abbrev settings : SamplingParams ℕ
settings = record {
  temperature = 200;
  top_k = some 2;
  top_p = some 60;
  repetition_penalty = some 300;
  seed = 0;
}

abbrev scores : List ℕ
scores = 900 ∷ 400 ∷ 700 ∷ []

abbrev used_sampler : Sampler ℕ
used_sampler = record { params = settings; rng = 7; history = 2 ∷ 5 ∷ 2 ∷ [] }

abbrev drawn_sampler : Sampler ℕ
drawn_sampler = record used_sampler { rng = 7575888327 }

drawn : sample naturals used_sampler scores ≡ some (ok (0, drawn_sampler))
unfolding sample is_greedy apply_repetition_penalty State.penalize State.penalize_id contains_id
    State.apply_temperature Sample.filter_k Filters.apply_top_k Filters.descending
    Filters.compare_descending Filters.unwrap_or_equal Filters.range_from Filters.softmax_to_probs
    Filters.largest Filters.sum_from Filters.normalized Sample.filter_p Filters.apply_top_p
    Filters.mark_kept Filters.drop_unkept Sample.multinomial Sample.reached_at State.next_unit
    State.next_u64 State.penalized
drawn = refl

sample-Drawn_example : Drawn naturals used_sampler scores (0, drawn_sampler)
sample-Drawn_example = sample-Drawn naturals used_sampler scores (0, drawn_sampler) refl drawn

apply_repetition_penalty-get_elem?_example :
    get_elem? (apply_repetition_penalty naturals used_sampler scores) 2
    ≡ described naturals 300 (contains_id (2 ∷ 5 ∷ 2 ∷ []) 2) (some 700)
apply_repetition_penalty-get_elem?_example =
    apply_repetition_penalty-get_elem? naturals used_sampler scores 300 2 refl refl refl

rollback-checkpoint_example :
    rollback (observe (observe used_sampler 1) 4) (checkpoint used_sampler) ≡ used_sampler
rollback-checkpoint_example =
    rollback-checkpoint naturals refl (observed 4 (observed {t = used_sampler} 1 unused))

validate_generation_budget_iff_example :
    (validate_generation_budget with_sampler 3 4 (some 6) 8 ≡ ok tt) ↔ ((3 + (4 - 1) ≤ 6) × (6 ≤ 8))
validate_generation_budget_iff_example =
    validate_generation_budget_iff with_sampler 3 4 6 8 (omega arith)

-- The cache is the list of the tokens, and the hidden vector their number.
abbrev counting : Model ℕ ℕ (List ℕ)
counting = record {
  vocab_size = 3;
  context_length = 8;
  new_cache = λ n. some (ok []);
  prefill = λ cache ids. some (ok (ids, length ids));
  forward = λ cache id position. some (ok (cache ++ id ∷ [], position + 1));
  multi_forward = λ ids. some (ok (length ids));
  logits = λ hidden. some (ok (hidden % 3 ∷ 1 ∷ hidden % 2 ∷ []));
}

abbrev greedy_sampler : Sampler ℕ
greedy_sampler = new_sampler (greedy naturals)

generate_with_cache_and_sampler-greedy_example :
    unnamed_run (
      ids_of (
        generate_with_cache_and_sampler naturals counting
          (1 ∷ 2 ∷ [])
          3
          (some 2)
          []
          6
          greedy_sampler))
    ≡ unnamed_run (greedy_generate_with_cache naturals counting (1 ∷ 2 ∷ []) 3 (some 2) 6)
unfolding new_sampler is_greedy
generate_with_cache_and_sampler-greedy_example =
    generate_with_cache_and_sampler-greedy naturals counting (1 ∷ 2 ∷ []) 3 (some 2) 6
      greedy_sampler refl

counting-sized :
    (hidden : ℕ) (logits : List ℕ)
    → some (ok (hidden % 3 ∷ 1 ∷ hidden % 2 ∷ [])) ≡ some (ok logits)
    → length logits ≡ 3
counting-sized hidden logits h = ap length (ok_same h)
  where
    ok_same : {xs ys : List ℕ} → some (ok xs) ≡ some (ok ys) → ys ≡ xs
    ok_same p = cc

generate-guarded_example :
    generate_with_cache_and_sampler_with_stats naturals
      (guarded 6 counting)
      (1 ∷ 2 ∷ [])
      3
      (some 2)
      []
      6
      used_sampler
    ≡ generate_with_cache_and_sampler_with_stats naturals counting
        (1 ∷ 2 ∷ [])
        3
        (some 2)
        []
        6
        used_sampler
generate-guarded_example =
    generate-guarded naturals counting (1 ∷ 2 ∷ []) 3 (some 2) [] 6 used_sampler refl counting-sized
      (omega arith)

-- What a greedy run calls back with and gives.
abbrev greedy_ticks : List Tick
greedy_ticks =
    record { step = 0; position = 2; id = 0 }
    ∷ record { step = 1; position = 3; id = 1 }
    ∷ record { step = 2; position = 4; id = 0 }
    ∷ []

abbrev greedy_result : GenerationResult × Sampler ℕ
greedy_result = (
  record { generated_tokens = 0 ∷ 1 ∷ 0 ∷ []; prefill_tokens = 2; decode_tokens = 3 },
  record { params = greedy naturals; rng = 0xabad_1dea; history = 1 ∷ 2 ∷ 0 ∷ 1 ∷ 0 ∷ [] },
)

greedy_run :
    generate_with_cache_and_sampler_with_stats naturals counting
      (1 ∷ 2 ∷ [])
      3
      (some 2)
      []
      6
      greedy_sampler
    ≡ (greedy_ticks, some (ok greedy_result))
unfolding generate_with_cache_and_sampler_with_stats Budget.check_prompt Budget.is_empty
    Budget.check_tokens validate_generation_budget Budget.check_capacity Prelude.checked_add
    Budget.check_needed Loops.sampled_loop sample is_greedy Loops.observe_all observe new_sampler
    Filters.argmax Loops.is_eos Filters.best_from contains_id Loops.advance State.seeded
greedy_run = refl

generate-IsReported_example :
    IsReported (some 2) [] (1 ∷ 2 ∷ []) 3 greedy_sampler greedy_ticks greedy_result
generate-IsReported_example =
    generate-IsReported naturals counting (1 ∷ 2 ∷ []) 3 (some 2) [] 6 greedy_sampler refl
      (omega arith) greedy_ticks greedy_result greedy_run
