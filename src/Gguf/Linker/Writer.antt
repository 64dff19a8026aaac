-- ===== src/Gguf/Linker/Writer.antt =====
-- `patched_header` and `write_artifact` of src/gguf/linker.rs: the bytes of an artifact. The file
-- written to is the list of its bytes; the conversion of an `f16` and the quantiser of a row are
-- parameters.
use project_willamette.Prelude.{
  ℕ, zero, suc, ◌+◌, ◌*◌, ◌/◌, ◌%◌, Bool, Option, none, some, List, [], ◌∷◌, ◌++◌, length, take,
  drop, replicate, get_elem?, leb, ◌==◌, if◌then◌else◌, checked_add, checked_mul, checked_sub,
}
use project_willamette.Gguf.Result.{
  Result, ok, err, ok_or, ◌>>=◌, gguf_parse, patch_bounds, missing_descriptor, start_bounds,
  source_bounds, not_monotonic, position_overflow, wrong_total, slot_end_overflow,
  absolute_overflow, row_size_overflow,
}
use project_willamette.Gguf.Outcome.{Outcome}
use project_willamette.Gguf.Types.{to_raw}
use project_willamette.Gguf.Header.{TensorDescriptorLocation}
use project_willamette.Gguf.Views.{TensorView, GgufFile, slice}
use project_willamette.Gguf.Linker.{
  LinkPlan, PlannedTensor, TensorAction, copy, quantize_f16_to_q6_k,
}

unfoldable pub le_bytes : ℕ → ℕ → List ℕ
le_bytes zero value = []
le_bytes (suc n) value = value % 256 ∷ le_bytes n (value / 256)

-- `data.get_mut(offset..offset + n)` and `copy_from_slice`; `patch_u32` for 4, `patch_u64` for 8.
unfoldable pub patch : ℕ → List ℕ → ℕ → ℕ → Result (List ℕ)
patch n bytes offset value =
    if leb (offset + n) (length bytes)
    then ok (take offset bytes ++ (le_bytes n value ++ drop (offset + n) bytes))
    else err (gguf_parse patch_bounds)

unfoldable pub patch_descriptors :
    List TensorDescriptorLocation → List PlannedTensor → List ℕ → Result (List ℕ)
patch_descriptors descriptors [] header = ok header
patch_descriptors descriptors (p ∷ ps) header = do
  descriptor ← ok_or (get_elem? descriptors p.source_index) missing_descriptor
  with_type ← patch 4 header descriptor.dtype_offset (to_raw p.output_type)
  with_offset ← patch 8 with_type descriptor.relative_offset_offset p.output_relative_offset
  patch_descriptors descriptors ps with_offset

unfoldable pub patched_header : List ℕ → GgufFile → List PlannedTensor → Result (List ℕ)
patched_header source gguf planned =
    if leb gguf.data_section_start (length source)
    then patch_descriptors gguf.tensor_descriptors planned (take gguf.data_section_start source)
    else err (gguf_parse start_bounds)

unfoldable pub source_slice : List ℕ → ℕ → ℕ → Result (List ℕ)
source_slice source start end =
    if leb start end
    then (if leb end (length source)
        then ok (slice source start end)
        else err (gguf_parse source_bounds))
    else err (gguf_parse source_bounds)

-- The output so far, and the position that the code counts.
pub record Output : Type 0 where
  pub written : List ℕ
  pub position : ℕ

-- `data.chunks_exact(n)`, on fuel: the number of the bytes is enough, as `n` is not 0.
unfoldable pub chunks_exact : ℕ → ℕ → List ℕ → List (List ℕ)
chunks_exact zero n bytes = []
chunks_exact (suc fuel) n bytes =
    let rest = chunks_exact fuel n (drop n bytes) in
    if leb n (length bytes) then take n bytes ∷ rest else []

-- `f16_to_f32` of a word, `f32::is_finite`, and `q6_k::quantize_row` from a row into a buffer, with the
-- buffer after it.
pub record Quantiser (F : Type 0) : Type 0 where
  pub f16_to_f32 : ℕ → F
  pub is_finite : F → Bool
  pub quantize_row : List F → List ℕ → Result (List ℕ)

module _ {F : Type 0} (quantiser : Quantiser F) (source : List ℕ) where
  unfoldable pub row_values : List ℕ → List F
  row_values (low ∷ high ∷ rest) = quantiser.f16_to_f32 (low + 256 * high) ∷ row_values rest
  row_values _ = []

  -- The loop over the rows, with the buffer that each writes into.
  unfoldable pub write_rows : List ℕ → List (List ℕ) → Result (List ℕ)
  write_rows quantized [] = ok []
  write_rows quantized (f16_bytes ∷ rows) = do
    quantized' ← quantiser.quantize_row (row_values f16_bytes) quantized
    rest ← write_rows quantized' rows
    ok (quantized' ++ rest)

  -- `none` is the panic of `chunks_exact(0)`.
  unfoldable pub write_q6k_rows : ℕ → List ℕ → Outcome (List ℕ)
  write_q6k_rows row_elements bytes = elim (checked_mul row_elements 2) [
    | none ↦ some (err (gguf_parse row_size_overflow))
    | some f16_row_bytes ↦
        if f16_row_bytes == 0
        then none
        else some (
            write_rows (replicate (row_elements / 256 * 210) 0)
              (chunks_exact (length bytes) f16_row_bytes bytes))
  ]

  -- `none` is the panic of a shape without dimensions, or of a row without elements.
  unfoldable pub write_q6k_tensor : TensorView → Outcome (List ℕ)
  write_q6k_tensor v = elim v.shape [
    | [] ↦ none
    | row_elements ∷ outer ↦ write_q6k_rows row_elements v.bytes
  ]

  -- What follows the rows of a transformed tensor: the bytes after it in its slot.
  unfoldable pub write_suffix : PlannedTensor → TensorView → List ℕ → Output → Result Output
  write_suffix p v rows output = do
    position ← ok_or (checked_add output.position p.output_primary_bytes) position_overflow
    primary_end ← ok_or (checked_add v.offset v.byte_len) slot_end_overflow
    suffix ← source_slice source primary_end p.source_slot_end
    position' ← ok_or (checked_add position (length suffix)) position_overflow
    ok (record { written = output.written ++ (rows ++ suffix); position = position' })

  unfoldable pub copy_slot : PlannedTensor → TensorView → Output → Result Output
  copy_slot p v output = do
    slot ← source_slice source v.offset p.source_slot_end
    position ← ok_or (checked_add output.position (length slot)) position_overflow
    ok (record { written = output.written ++ slot; position = position })

  -- The bytes of one tensor, after the padding.
  unfoldable pub write_tensor : PlannedTensor → TensorView → TensorAction → Output → Outcome Output
  write_tensor p v copy output = some (copy_slot p v output)
  write_tensor p v quantize_f16_to_q6_k output = elim (write_q6k_tensor v) [
    | none ↦ none
    | some (err e) ↦ some (err e)
    | some (ok rows) ↦ some (write_suffix p v rows output)
  ]

  -- The zeros up to the offset of a tensor.
  unfoldable pub pad : ℕ → PlannedTensor → Output → Result Output
  pad start p output = do
    output_offset ← ok_or (checked_add start p.output_relative_offset) absolute_overflow
    padding ← ok_or (checked_sub output_offset output.position) not_monotonic
    ok (record { written = output.written ++ replicate padding 0; position = output_offset })

  -- One round; `none` is a panic on an index without a tensor.
  unfoldable pub write_one : GgufFile → PlannedTensor → Output → Option (Result Output)
  write_one gguf p output = elim (pad gguf.data_section_start p output) [
    | err e ↦ some (err e)
    | ok padded ↦ elim (get_elem? gguf.tensors p.source_index) [
      | none ↦ none
      | some v ↦ write_tensor p v p.action padded
    ]
  ]

  unfoldable pub write_all : GgufFile → List PlannedTensor → Output → Option (Result Output)
  write_all gguf [] output = some (ok output)
  write_all gguf (p ∷ ps) output = elim (write_one gguf p output) [
    | none ↦ none
    | some (err e) ↦ some (err e)
    | some (ok next) ↦ write_all gguf ps next
  ]

  unfoldable pub finish : LinkPlan → Option (Result Output) → Option (Result (List ℕ))
  finish plan none = none
  finish plan (some (err e)) = some (err e)
  finish plan (some (ok output)) = some (
      if output.position == plan.output_bytes
      then ok output.written
      else err (gguf_parse wrong_total))

  unfoldable pub write_artifact :
      GgufFile → LinkPlan → List PlannedTensor → Option (Result (List ℕ))
  write_artifact gguf plan planned = elim (patched_header source gguf planned) [
    | err e ↦ some (err e)
    | ok header ↦
        finish plan (write_all gguf planned (record { written = header; position = length header }))
  ]
