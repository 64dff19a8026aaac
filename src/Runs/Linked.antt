-- ===== src/Runs/Linked.antt =====
-- A file of one F16 matrix, planned and linked.
use project_willamette.Prelude.{
  ℕ, zero, suc, ◌≡◌, refl, true, none, some, List, [], ◌∷◌, ◌++◌, length, length-replicate,
  replicate, checked_sub, ap, ◌∙◌,
}
use project_willamette.Gguf.Result.{ok}
use project_willamette.Gguf.Lengths.{q6k_expected_byte_len, row_local_len}
use project_willamette.Gguf.Types.{to_raw}
use project_willamette.Gguf.Views.Checked.{ok-injective}
use project_willamette.Gguf.Linker.{
  ArtifactProfile, Transform, LinkPlan, PlannedTensor, build_plan, plan_loop, plan_one,
  align_offset, close_previous, selected, add_entries, next_start, physical_order, insert_by_offset,
}
use project_willamette.Gguf.Linker.Embedding.{
  validate_q6k_embedding, validate_shape, validate_finite_f16, is_f16,
}
use project_willamette.Gguf.Linker.Rows.{KeepsLength}
use project_willamette.Gguf.Linker.Writer.{
  Quantiser, write_artifact, patched_header, patch_descriptors, patch, le_bytes, write_all,
  write_one, pad, write_tensor, write_suffix, write_q6k_tensor, write_q6k_rows, write_rows,
  chunks_exact, row_values, source_slice, finish,
}
use project_willamette.Gguf.Linker.Written.{length-write_artifact}
use project_willamette.Prelude.{checked_add, checked_mul}
use project_willamette.Gguf.Types.{from_raw, f16, q6_k}
use project_willamette.Gguf.Lengths.{checked_product, compute_tensor_byte_len, flat_len, layout}
use project_willamette.Gguf.Cursor.{
  read_word, read_bytes, from_le, is_power_of_two, is_utf8, is_utf8_from,
}
use project_willamette.Gguf.Values.{validate_count, read_gguf_string}
use project_willamette.Gguf.Header.{
  read_header, read_magic, read_version, read_counts, read_metadata, alignment_of, lookup_key,
  read_tensor_infos, read_tensor_info, read_shape,
}
use project_willamette.Gguf.Views.{
  TensorView, GgufFile, parse, absolute_next, build_file, build_view, build_views, is_i2s,
  known_length, next_offset, passes_next, place_view, scale_block, shares_offset,
}
use project_willamette.Gguf.Views

-- Words of 1.0.
abbrev halves : ℕ → List ℕ
halves zero = []
halves (suc n) = 0 ∷ 60 ∷ halves n

abbrev word32 : ℕ → List ℕ
word32 n = n ∷ replicate 3 0

abbrev word64 : ℕ → List ℕ
word64 n = n ∷ replicate 7 0

abbrev matrix_file : List ℕ
matrix_file =
    (0x47 ∷ 0x47 ∷ 0x55 ∷ 0x46 ∷ [])
    ++ (word32 3
        ++ (word64 1
            ++ (word64 0
                ++ (word64 1
                    ++ (97 ∷ word32 2
                        ++ ((0 ∷ 1 ∷ replicate 6 0)
                            ++ (word64 1
                                ++ (word32 1 ++ (word64 0 ++ (replicate 31 0 ++ halves 256))))))))))

abbrev embedding : TensorView
embedding = record {
  name = 97 ∷ [];
  shape = 256 ∷ 1 ∷ [];
  ggml_type = f16;
  offset = 96;
  byte_len = 512;
  bytes = halves 256;
  scale_data = none;
}

abbrev matrix_parsed : GgufFile
matrix_parsed = record {
  version = 3;
  tensor_count = 1;
  metadata = [];
  tensors = embedding ∷ [];
  alignment = 32;
  data_section_start = 96;
  tensor_descriptors = record { dtype_offset = 53; relative_offset_offset = 57 } ∷ [];
}

parse-matrix : parse matrix_file ≡ ok matrix_parsed
unfolding parse read_header read_magic read_word read_bytes from_le read_version read_counts
    validate_count checked_mul read_metadata alignment_of is_power_of_two lookup_key
    read_tensor_infos read_tensor_info read_gguf_string is_utf8 is_utf8_from read_shape
    checked_product compute_tensor_byte_len flat_len layout from_raw absolute_next
    Views.align_offset build_file build_view build_views is_i2s known_length next_offset passes_next
    place_view scale_block shares_offset checked_add
parse-matrix = refl

-- A quantiser that writes the length of the row over the buffer.
abbrev stamps : Quantiser ℕ
stamps = record {
  f16_to_f32 = λ w. w;
  is_finite = λ w. true;
  quantize_row = λ row buffer. ok (replicate (length buffer) (length row));
}

stamps-KeepsLength : KeepsLength stamps
stamps-KeepsLength row buffer out h =
    ap length (ok-injective h) ∙ length-replicate (length buffer) (length row)

abbrev transform : Transform
transform = record { architecture = []; source_index = 0; output_type = q6_k; output_bytes = 210 }

accepted : validate_q6k_embedding stamps embedding ≡ ok 210
unfolding validate_q6k_embedding is_f16 validate_shape validate_finite_f16 q6k_expected_byte_len
    row_local_len checked_product checked_mul
accepted = refl

abbrev planned : LinkPlan × List PlannedTensor
planned =
    elim (build_plan ArtifactProfile.embedding_q6_k 608 matrix_parsed transform)
      as (λ _. LinkPlan × List PlannedTensor) [
        | ok p ↦ p
        | _ ↦ (
          record {
            profile = ArtifactProfile.embedding_q6_k;
            architecture = [];
            source_bytes = 0;
            output_bytes = 0;
            alignment = 0;
            tensor_count = 0;
            tensors = [];
            changes = [];
          },
          [],
        )
      ]

planned_ok :
    build_plan ArtifactProfile.embedding_q6_k 608 matrix_parsed transform
    ≡ ok (planned.0, planned.1)
unfolding build_plan plan_loop plan_one align_offset close_previous selected add_entries next_start
    physical_order insert_by_offset checked_add checked_sub
planned_ok = refl

abbrev artifact : List ℕ
artifact =
    elim (write_artifact stamps matrix_file matrix_parsed planned.0 planned.1) as (λ _. List ℕ) [
      | some (ok out) ↦ out
      | _ ↦ []
    ]

written : write_artifact stamps matrix_file matrix_parsed planned.0 planned.1 ≡ some (ok artifact)
unfolding write_artifact patched_header patch_descriptors patch le_bytes write_all write_one pad
    write_tensor write_suffix write_q6k_tensor write_q6k_rows write_rows chunks_exact row_values
    source_slice finish checked_add checked_sub checked_mul to_raw build_plan plan_loop plan_one
    align_offset close_previous selected add_entries next_start physical_order insert_by_offset
written = refl

length-write_artifact_example : length artifact ≡ (planned.0).output_bytes
length-write_artifact_example =
    length-write_artifact stamps matrix_file matrix_parsed ArtifactProfile.embedding_q6_k transform
      embedding planned.0 planned.1 artifact stamps-KeepsLength parse-matrix refl accepted
      planned_ok written
