-- ===== src/Gguf/Views.antt =====
-- `GgufFile::parse` of src/gguf/reader.rs from the tensor directory on: the views into the file.
pub mod Checked
pub mod Disjoint
use project_willamette.Prelude.{
  ℕ, zero, suc, ◌+◌, ◌-◌, ◌%◌, ◌≡◌, Bool, true, false, not, ◌&&◌, ◌||◌, Option, none, some, List,
  [], ◌∷◌, length, take, drop, leb, ltb, ◌==◌, if◌then◌else◌, checked_add, map,
}
use project_willamette.Gguf.Result.{
  Result, ok, err, ok_or, ◌>>=◌, ◌>>◌, gguf_parse, tensor_out_of_bounds, Problem, section_overflow,
  section_beyond_eof, offset_overflow, shared_offset, next_overflow, unknown_length, end_overflow,
  overlap, scale_overflow, scale_overlap,
}
use project_willamette.Gguf.Types.{GgmlType, i2_s}
use project_willamette.Gguf.Lengths.{compute_tensor_byte_len}
use project_willamette.Gguf.Cursor.{Cursor}
use project_willamette.Gguf.Header.{
  RawTensorInfo, TensorDescriptorLocation, Header, Metadata, read_header,
}

pub record TensorView : Type 0 where
  pub name : List ℕ
  pub shape : List ℕ
  pub ggml_type : GgmlType
  pub offset : ℕ
  pub byte_len : ℕ
  pub bytes : List ℕ
  pub scale_data : Option (List ℕ)

pub record GgufFile : Type 0 where
  pub version : ℕ
  pub tensor_count : ℕ
  pub metadata : Metadata
  pub tensors : List TensorView
  pub alignment : ℕ
  pub data_section_start : ℕ
  pub tensor_descriptors : List TensorDescriptorLocation

-- I2S_TRAILING_SCALE_BLOCK_BYTES
abbrev pub scale_block_bytes : ℕ
scale_block_bytes = 32

unfoldable pub align_offset : ℕ → ℕ → Option ℕ
align_offset offset alignment =
    if offset % alignment == 0
    then some offset
    else checked_add offset (alignment - offset % alignment)

-- `&data[from..to]`, for a range that the caller has checked.
abbrev pub slice : List ℕ → ℕ → ℕ → List ℕ
slice bytes from to = take (to - from) (drop from bytes)

-- Another index, counted from `i`, holds the same offset.
unfoldable pub shares_offset : ℕ → ℕ → ℕ → List ℕ → Bool
shares_offset i index offset [] = false
shares_offset i index offset (o ∷ os) =
    (not (i == index) && o == offset) || shares_offset (i + 1) index offset os

abbrev pub lesser : ℕ → Option ℕ → Option ℕ
lesser a none = some a
lesser a (some b) = some (if ltb b a then b else a)

-- `filter(|o| o > offset).min()`.
unfoldable pub next_offset : ℕ → List ℕ → Option ℕ
next_offset offset [] = none
next_offset offset (o ∷ os) =
    let rest = next_offset offset os in if ltb offset o then lesser o rest else rest

-- The start of the next tensor in the file, if there is one.
unfoldable pub absolute_next : ℕ → Option ℕ → Result (Option ℕ)
absolute_next start none = ok none
absolute_next start (some o) = do next ← ok_or (checked_add start o) next_overflow; ok (some next)

unfoldable pub known_length : Option ℕ → Result ℕ
known_length none = err (gguf_parse unknown_length)
known_length (some n) = ok n

-- `next.is_some_and(|next| end > next)`.
unfoldable pub passes_next : Option ℕ → ℕ → Bool
passes_next none end = false
passes_next (some next) end = ltb next end

unfoldable pub is_i2s : GgmlType → Bool
is_i2s i2_s = true
is_i2s _ = false

-- The trailing scale block of an I2_S tensor.
unfoldable pub scale_block : List ℕ → Option ℕ → ℕ → GgmlType → Result (Option (List ℕ))
scale_block bytes next end t =
    if is_i2s t
    then (do
      scale_end ← ok_or (checked_add end scale_block_bytes) scale_overflow
      if ltb (length bytes) scale_end
          then err (tensor_out_of_bounds end scale_end (length bytes))
          else if passes_next next scale_end
          then err (gguf_parse scale_overlap)
          else ok (some (slice bytes end scale_end)))
    else ok none

-- The view of a tensor whose start, length and successor are known.
unfoldable pub place_view : List ℕ → Option ℕ → RawTensorInfo → ℕ → ℕ → Result TensorView
place_view bytes next info abs_offset byte_len = do
  end ← ok_or (checked_add abs_offset byte_len) end_overflow
  if ltb (length bytes) end
      then err (tensor_out_of_bounds abs_offset end (length bytes))
      else if passes_next next end
      then err (gguf_parse overlap)
      else (do
        scale ← scale_block bytes next end info.ggml_type
        ok (record {
          name = info.name;
          shape = info.shape;
          ggml_type = info.ggml_type;
          offset = abs_offset;
          byte_len = byte_len;
          bytes = slice bytes abs_offset end;
          scale_data = scale;
        }))

-- One round of the loop that builds the views.
unfoldable pub build_view : List ℕ → ℕ → List ℕ → ℕ → RawTensorInfo → Result TensorView
build_view bytes start offsets index info = do
  abs_offset ← ok_or (checked_add start info.relative_offset) offset_overflow
  (if shares_offset 0 index info.relative_offset offsets
      then err (gguf_parse shared_offset)
      else ok (tt {0}))
  next ← absolute_next start (next_offset info.relative_offset offsets)
  len ← compute_tensor_byte_len info.shape info.ggml_type
  byte_len ← known_length len
  place_view bytes next info abs_offset byte_len

unfoldable pub build_views : List ℕ → ℕ → List ℕ → ℕ → List RawTensorInfo → Result (List TensorView)
build_views bytes start offsets index [] = ok []
build_views bytes start offsets index (info ∷ infos) = do
  view ← build_view bytes start offsets index info
  views ← build_views bytes start offsets (index + 1) infos
  ok (view ∷ views)

abbrev pub offsets_of : List RawTensorInfo → List ℕ
offsets_of infos = map (λ info. info.relative_offset) infos

abbrev is_empty : List RawTensorInfo → Bool
is_empty [] = true
is_empty (_ ∷ _) = false

-- Where the data section starts, and the views into it.
unfoldable pub build_file : List ℕ → Header → ℕ → Result GgufFile
build_file bytes header header_end = do
  start ← ok_or (align_offset header_end header.alignment) section_overflow
  let infos = map (λ p. p.0) header.infos
  (if not (is_empty infos) && ltb (length bytes) start
      then err (gguf_parse section_beyond_eof)
      else ok (tt {0}))
  views ← build_views bytes start (offsets_of infos) 0 infos
  ok (record {
    version = header.version;
    tensor_count = header.tensor_count;
    metadata = header.metadata;
    tensors = views;
    alignment = header.alignment;
    data_section_start = start;
    tensor_descriptors = map (λ p. p.1) header.infos;
  })

-- `GgufFile::parse`.
unfoldable pub parse : List ℕ → Result GgufFile
parse bytes = do
  (header, cursor) ← read_header (record { rest = bytes; position = 0 })
  build_file bytes header cursor.position
