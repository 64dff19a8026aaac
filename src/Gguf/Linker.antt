-- ===== src/Gguf/Linker.antt =====
-- `build_plan` of src/gguf/linker.rs: where each tensor of an artifact goes. What
-- `profile_transform` finds (the architecture, the tensor to transform, its new type and size) is a
-- parameter, a `Transform`.
pub mod Tiled
pub mod Writer
pub mod Rows
pub mod Embedding
pub mod Selected
pub mod Written
use project_willamette.Prelude.{
  ℕ, zero, suc, ◌+◌, ◌-◌, ◌%◌, Bool, true, false, Option, none, some, List, [], ◌∷◌, ◌++◌, length,
  leb, ltb, ◌==◌, if◌then◌else◌, checked_add, checked_sub,
}
use project_willamette.Gguf.Result.{
  Result, ok, err, ok_or, ◌>>=◌, slot_end_overflow, slot_underflow, align_overflow,
  previous_underflow, slot_overflow, running_overflow, absolute_overflow, artifact_overflow,
}
use project_willamette.Gguf.Types.{GgmlType}
use project_willamette.Gguf.Views.{TensorView, GgufFile}

pub data ArtifactProfile : Type 0 where
  embedding_q6_k : ArtifactProfile

pub record TensorChange : Type 0 where
  pub name : List ℕ
  pub source_type : GgmlType
  pub output_type : GgmlType
  pub source_bytes : ℕ
  pub output_bytes : ℕ
  pub source_offset : ℕ
  pub output_offset : ℕ

pub data TensorAction : Type 0 where
  copy quantize_f16_to_q6_k : TensorAction

pub record TensorPlan : Type 0 where
  pub name : List ℕ
  pub action : TensorAction
  pub source_type : GgmlType
  pub output_type : GgmlType
  pub source_offset : ℕ
  pub output_offset : ℕ
  pub source_primary_bytes : ℕ
  pub output_primary_bytes : ℕ
  pub source_slot_bytes : ℕ
  pub output_slot_bytes : ℕ

pub record LinkPlan : Type 0 where
  pub profile : ArtifactProfile
  pub architecture : List ℕ
  pub source_bytes : ℕ
  pub output_bytes : ℕ
  pub alignment : ℕ
  pub tensor_count : ℕ
  pub tensors : List TensorPlan
  pub changes : List TensorChange

pub record PlannedTensor : Type 0 where
  pub source_index : ℕ
  pub source_slot_end : ℕ
  pub output_relative_offset : ℕ
  pub output_type : GgmlType
  pub output_primary_bytes : ℕ
  pub action : TensorAction

-- What `profile_transform` returns.
pub record Transform : Type 0 where
  pub architecture : List ℕ
  pub source_index : ℕ
  pub output_type : GgmlType
  pub output_bytes : ℕ

-- The alignment is not 0: the parser has checked that it is a power of two.
unfoldable pub align_offset : ℕ → ℕ → Result ℕ
align_offset offset alignment =
    let remainder = offset % alignment in
    if remainder == 0
    then ok offset
    else ok_or (checked_add offset (alignment - remainder)) align_overflow

-- The tensors with their indices, sorted by offset. The parser has made sure that no two offsets
-- are equal, so that it does not matter that the source's sort is not stable.
unfoldable pub insert_by_offset : ℕ × TensorView → List (ℕ × TensorView) → List (ℕ × TensorView)
insert_by_offset t [] = t ∷ []
insert_by_offset t (u ∷ us) =
    let rest = insert_by_offset t us in if leb t.1.offset u.1.offset then t ∷ u ∷ us else u ∷ rest

unfoldable pub physical_order : ℕ → List TensorView → List (ℕ × TensorView)
physical_order i [] = []
physical_order i (v ∷ vs) = insert_by_offset (i, v) (physical_order (i + 1) vs)

-- What the loop has made, the newest first.
pub record PlanState : Type 0 where
  pub running : ℕ
  pub planned : List PlannedTensor
  pub tensor_plans : List TensorPlan
  pub changes : List TensorChange

-- `previous.output_slot_bytes`, once the offset of the next tensor is known.
unfoldable pub close_previous : ℕ → ℕ → List TensorPlan → Result (List TensorPlan)
close_previous start relative [] = ok []
close_previous start relative (p ∷ ps) = do
  previous ← ok_or (checked_sub p.output_offset start) previous_underflow
  slot ← ok_or (checked_sub relative previous) previous_underflow
  ok (
      record {
        name = p.name;
        action = p.action;
        source_type = p.source_type;
        output_type = p.output_type;
        source_offset = p.source_offset;
        output_offset = p.output_offset;
        source_primary_bytes = p.source_primary_bytes;
        output_primary_bytes = p.output_primary_bytes;
        source_slot_bytes = p.source_slot_bytes;
        output_slot_bytes = slot;
      }
      ∷ ps)

-- What happens to the tensor at an index: the action, the type and the size of the output.
unfoldable pub selected : Transform → ℕ → TensorView → TensorAction × GgmlType × ℕ
selected transform index tensor =
    if index == transform.source_index
    then (quantize_f16_to_q6_k, transform.output_type, transform.output_bytes)
    else (copy, tensor.ggml_type, tensor.byte_len)

-- The entries of one round, its numbers known.
unfoldable pub add_entries :
    Transform → ℕ → TensorView → ℕ → ℕ → ℕ → ℕ → ℕ → List TensorPlan → PlanState → PlanState
add_entries transform index tensor slot_end relative offset slot running plans state =
    let (action, output_type, primary) = selected transform index tensor in
    record {
      running = running;
      planned =
          record {
            source_index = index;
            source_slot_end = slot_end;
            output_relative_offset = relative;
            output_type = output_type;
            output_primary_bytes = primary;
            action = action;
          }
          ∷ state.planned;
      tensor_plans =
          record {
            name = tensor.name;
            action = action;
            source_type = tensor.ggml_type;
            output_type = output_type;
            source_offset = tensor.offset;
            output_offset = offset;
            source_primary_bytes = tensor.byte_len;
            output_primary_bytes = primary;
            source_slot_bytes = slot_end - tensor.offset;
            output_slot_bytes = slot;
          }
          ∷ plans;
      changes =
          if index == transform.source_index
          then record {
            name = tensor.name;
            source_type = tensor.ggml_type;
            output_type = output_type;
            source_bytes = tensor.byte_len;
            output_bytes = primary;
            source_offset = tensor.offset;
            output_offset = offset;
          }
            ∷ state.changes
          else state.changes;
    }

-- One round of the loop.
unfoldable pub plan_one : ℕ → ℕ → Transform → ℕ → TensorView → ℕ → PlanState → Result PlanState
plan_one start alignment transform index tensor slot_end state = do
  primary_end ← ok_or (checked_add tensor.offset tensor.byte_len) slot_end_overflow
  suffix ← ok_or (checked_sub slot_end primary_end) slot_underflow
  relative ← align_offset state.running alignment
  plans ← close_previous start relative state.tensor_plans
  slot ← ok_or (checked_add (selected transform index tensor).2 suffix) slot_overflow
  running ← ok_or (checked_add relative slot) running_overflow
  offset ← ok_or (checked_add start relative) absolute_overflow
  ok (add_entries transform index tensor slot_end relative offset slot running plans state)

-- Where the slot of a tensor ends in the source: at the next one, or at the end of the file.
unfoldable pub next_start : ℕ → List (ℕ × TensorView) → ℕ
next_start source_len [] = source_len
next_start source_len ((i, v) ∷ rest) = v.offset

unfoldable pub plan_loop :
    ℕ → ℕ → ℕ → Transform → List (ℕ × TensorView) → PlanState → Result PlanState
plan_loop source_len start alignment transform [] state = ok state
plan_loop source_len start alignment transform ((i, v) ∷ rest) state = do
  state' ← plan_one start alignment transform i v (next_start source_len rest) state
  plan_loop source_len start alignment transform rest state'

abbrev pub reverse {ℓ} : {A : Type ℓ} → List A → List A
reverse [] = []
reverse (x ∷ xs) = reverse xs ++ (x ∷ [])

unfoldable pub build_plan :
    ArtifactProfile → ℕ → GgufFile → Transform → Result (LinkPlan × List PlannedTensor)
build_plan profile source_len gguf transform = do
  state ←
      plan_loop source_len gguf.data_section_start gguf.alignment transform
        (physical_order 0 gguf.tensors)
        (record { running = 0; planned = []; tensor_plans = []; changes = [] })
  output_bytes ← ok_or (checked_add gguf.data_section_start state.running) artifact_overflow
  ok (
    record {
      profile = profile;
      architecture = transform.architecture;
      source_bytes = source_len;
      output_bytes = output_bytes;
      alignment = gguf.alignment;
      tensor_count = gguf.tensor_count;
      tensors = reverse state.tensor_plans;
      changes = reverse state.changes;
    },
    reverse state.planned,
  )
