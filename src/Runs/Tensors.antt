-- ===== src/Runs/Tensors.antt =====
-- A small file parsed and planned, and a cache of one layer.
use project_willamette.Prelude.{
  ℕ, ◌+◌, ◌*◌, ◌≤◌, ◌<◌, ◌≡◌, refl, arith, true, some, List, [], ◌∷◌, length, ◌⊎◌, u64_mod,
  checked_add, checked_sub, checked_mul, ◌/◌, ◌==◌,
}
use Prim.Native.Nat.{max}
use project_willamette.Gguf.Result.{ok}
use project_willamette.Gguf.Types.{from_raw, to_raw, to_raw-from_raw, q6_k, f32}
use project_willamette.Gguf.Lengths.{
  compute_tensor_byte_len, q6k_expected_byte_len, row_local_len, checked_product,
}
use project_willamette.Gguf.Lengths.Exact.{product, compute_tensor_byte_len-exact}
use project_willamette.Gguf.Views.{slice}
use project_willamette.Gguf.Views.Checked.{footprint}
use project_willamette.Gguf.Views.Disjoint.{parse_in_bounds, parse_disjoint}
use project_willamette.Gguf.Linker.{
  ArtifactProfile, Transform, LinkPlan, TensorPlan, PlannedTensor, build_plan, plan_loop, plan_one,
  align_offset, close_previous, selected, add_entries, next_start, physical_order, insert_by_offset,
  reverse, copy, quantize_f16_to_q6_k,
}
use project_willamette.Gguf.Linker.Tiled.{Tiled, build_plan-Tiled}
use project_willamette.KvCache.State.{Floats, KvCache}
use project_willamette.KvCache.Cache.{try_new, new_layers, position, first_position, rollback}
use project_willamette.KvCache.Valid.{IsValid, try_new-IsValid}
use project_willamette.KvCache.Rollback.{IsSynchronized, appends, rollback-appends}
use project_willamette.Runs.File.{file, parsed_file, parse-file, view_a, view_b}

to_raw-from_raw_example : to_raw (from_raw 36) ≡ 36
to_raw-from_raw_example = to_raw-from_raw 36

abbrev q6k_shape : List ℕ
q6k_shape = 512 ∷ 3 ∷ []

q6k_len : compute_tensor_byte_len q6k_shape q6_k ≡ ok (some 1260)
unfolding compute_tensor_byte_len q6k_expected_byte_len row_local_len checked_product checked_mul
q6k_len = refl

compute_tensor_byte_len-exact_example : (1260 * 256 ≡ product q6k_shape * 210) × (1260 < u64_mod)
compute_tensor_byte_len-exact_example =
    compute_tensor_byte_len-exact q6k_shape q6_k 256 210 1260 refl q6k_len

parse_in_bounds_example :
    (view_a.offset + footprint view_a ≤ length file)
    × (view_a.bytes ≡ slice file view_a.offset (view_a.offset + view_a.byte_len))
    × (length view_a.bytes ≡ view_a.byte_len)
    × (compute_tensor_byte_len view_a.shape view_a.ggml_type ≡ ok (some view_a.byte_len))
parse_in_bounds_example = parse_in_bounds file parsed_file parse-file 0 view_a refl

parse_disjoint_example :
    (view_a.offset + footprint view_a ≤ view_b.offset)
    ⊎ (view_b.offset + footprint view_b ≤ view_a.offset)
parse_disjoint_example =
    parse_disjoint file parsed_file parse-file 0 1 view_a view_b refl refl (omega arith)

-- The tensor at index 0 is transformed to six bytes.
abbrev transform : Transform
transform = record { architecture = []; source_index = 0; output_type = q6_k; output_bytes = 6 }

abbrev plan_a : TensorPlan
plan_a = record {
  name = 97 ∷ [];
  action = quantize_f16_to_q6_k;
  source_type = f32;
  output_type = q6_k;
  source_offset = 100;
  output_offset = 128;
  source_primary_bytes = 4;
  output_primary_bytes = 6;
  source_slot_bytes = 4;
  output_slot_bytes = 6;
}

abbrev plan_b : TensorPlan
plan_b = record {
  name = 98 ∷ [];
  action = copy;
  source_type = f32;
  output_type = f32;
  source_offset = 96;
  output_offset = 96;
  source_primary_bytes = 4;
  output_primary_bytes = 4;
  source_slot_bytes = 4;
  output_slot_bytes = 32;
}

abbrev plan : LinkPlan
plan = record {
  profile = ArtifactProfile.embedding_q6_k;
  architecture = [];
  source_bytes = 104;
  output_bytes = 134;
  alignment = 32;
  tensor_count = 2;
  tensors = plan_b ∷ plan_a ∷ [];
  changes =
      record {
        name = 97 ∷ [];
        source_type = f32;
        output_type = q6_k;
        source_bytes = 4;
        output_bytes = 6;
        source_offset = 100;
        output_offset = 128;
      }
      ∷ [];
}

abbrev planned_b : PlannedTensor
planned_b = record {
  source_index = 1;
  source_slot_end = 100;
  output_relative_offset = 0;
  output_type = f32;
  output_primary_bytes = 4;
  action = copy;
}

abbrev planned_a : PlannedTensor
planned_a = record {
  source_index = 0;
  source_slot_end = 104;
  output_relative_offset = 32;
  output_type = q6_k;
  output_primary_bytes = 6;
  action = quantize_f16_to_q6_k;
}

abbrev planned : List PlannedTensor
planned = planned_b ∷ planned_a ∷ []

plan_ok : build_plan ArtifactProfile.embedding_q6_k 104 parsed_file transform ≡ ok (plan, planned)
unfolding build_plan plan_loop plan_one align_offset close_previous selected add_entries next_start
    physical_order insert_by_offset checked_add checked_sub
plan_ok = refl

build_plan-Tiled_example :
    (ts : List TensorPlan) × (plan.tensors ≡ reverse ts)
    × Tiled parsed_file.data_section_start parsed_file.alignment ts plan.output_bytes
build_plan-Tiled_example =
    build_plan-Tiled ArtifactProfile.embedding_q6_k 104 parsed_file transform plan planned
      (omega arith) plan_ok

-- Numbers in place of floats; a vector of zeros has no scale.
abbrev floats : Floats ℕ ℕ
floats = record {
  zero_f32 = 0;
  one_two_seven = 127;
  zero_i8 = 0;
  abs = λ x. x;
  max = max;
  div = ◌/◌;
  mul = ◌*◌;
  equals = ◌==◌;
  is_finite = λ x. true;
  to_i8 = λ x. x;
}

abbrev cache : KvCache ℕ ℕ
cache = record {
  n_layers = 1;
  kv_dim = 2;
  max_seq_len = 4;
  layers = record { k_quant = []; k_scales = []; v_quant = []; v_scales = [] } ∷ [];
}

made : try_new (λ n. true) 1 2 4 ≡ ok cache
unfolding try_new new_layers checked_mul
made = refl

try_new-IsValid_example : IsValid cache × (position cache ≡ 0)
try_new-IsValid_example = try_new-IsValid (λ n. true) 1 2 4 cache made

made-IsValid : IsValid cache
made-IsValid = (try_new-IsValid (λ n. true) 1 2 4 cache made).0

empty-IsSynchronized : IsSynchronized cache
unfolding position first_position
empty-IsSynchronized = (refl, tt)

rollback-appends_example :
    (c' : KvCache ℕ ℕ) × (appends floats cache ((0, 5 ∷ 6 ∷ [], 7 ∷ 8 ∷ []) ∷ (3, [], []) ∷ [])
      ≡ some c')
    × (rollback (position cache) c' ≡ cache)
rollback-appends_example =
    rollback-appends floats cache ((0, 5 ∷ 6 ∷ [], 7 ∷ 8 ∷ []) ∷ (3, [], []) ∷ []) made-IsValid
      empty-IsSynchronized
