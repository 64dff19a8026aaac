-- ===== src/Runs/File.antt =====
-- A small GGUF file: two F32 tensors of one element each.
use project_willamette.Prelude.{ℕ, ◌≡◌, refl, none, List, [], ◌∷◌, ◌++◌, replicate}
use project_willamette.Gguf.Result.{ok}
use project_willamette.Gguf.Types.{f32}
use project_willamette.Prelude.{checked_add, checked_mul}
use project_willamette.Gguf.Types.{from_raw}
use project_willamette.Gguf.Lengths.{checked_product, compute_tensor_byte_len, flat_len, layout}
use project_willamette.Gguf.Cursor.{
  read_word, read_bytes, from_le, is_power_of_two, is_utf8, is_utf8_from,
}
use project_willamette.Gguf.Values.{validate_count, read_gguf_string}
use project_willamette.Gguf.Header.{
  read_header, read_magic, read_version, read_counts, read_metadata, alignment_of, lookup_key,
  read_tensor_infos, read_tensor_info, read_shape,
}
use project_willamette.Gguf.Views.{
  TensorView, GgufFile, parse, absolute_next, align_offset, build_file, build_view, build_views,
  is_i2s, known_length, next_offset, passes_next, place_view, scale_block, shares_offset,
}

abbrev word32 : ℕ → List ℕ
word32 n = n ∷ replicate 3 0

abbrev word64 : ℕ → List ℕ
word64 n = n ∷ replicate 7 0

abbrev info : ℕ → ℕ → List ℕ
info name offset = word64 1 ++ (name ∷ word32 1 ++ (word64 1 ++ (word32 0 ++ word64 offset)))

abbrev pub file : List ℕ
file =
    (0x47 ∷ 0x47 ∷ 0x55 ∷ 0x46 ∷ [])
    ++ (word32 3
        ++ (word64 2
            ++ (word64 0
                ++ (info 97 4
                    ++ (info 98 0 ++ (replicate 6 0 ++ (1 ∷ 2 ∷ 3 ∷ 4 ∷ 5 ∷ 6 ∷ 7 ∷ 8 ∷ [])))))))

abbrev pub view_a : TensorView
view_a = record {
  name = 97 ∷ [];
  shape = 1 ∷ [];
  ggml_type = f32;
  offset = 100;
  byte_len = 4;
  bytes = 5 ∷ 6 ∷ 7 ∷ 8 ∷ [];
  scale_data = none;
}

abbrev pub view_b : TensorView
view_b = record {
  name = 98 ∷ [];
  shape = 1 ∷ [];
  ggml_type = f32;
  offset = 96;
  byte_len = 4;
  bytes = 1 ∷ 2 ∷ 3 ∷ 4 ∷ [];
  scale_data = none;
}

abbrev pub parsed_file : GgufFile
parsed_file = record {
  version = 3;
  tensor_count = 2;
  metadata = [];
  tensors = view_a ∷ view_b ∷ [];
  alignment = 32;
  data_section_start = 96;
  tensor_descriptors =
      record { dtype_offset = 45; relative_offset_offset = 49 }
      ∷ record { dtype_offset = 78; relative_offset_offset = 82 }
      ∷ [];
}

pub parse-file : parse file ≡ ok parsed_file
unfolding parse read_header read_magic read_word read_bytes from_le read_version read_counts
    validate_count checked_mul read_metadata alignment_of is_power_of_two lookup_key
    read_tensor_infos read_tensor_info read_gguf_string is_utf8 is_utf8_from read_shape
    checked_product compute_tensor_byte_len flat_len layout from_raw absolute_next align_offset
    build_file build_view build_views is_i2s known_length next_offset passes_next place_view
    scale_block shares_offset checked_add
parse-file = refl
