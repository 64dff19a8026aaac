-- ===== src/Gguf/Header.antt =====
-- `GgufFile::parse` of src/gguf/reader.rs up to the tensor directory: magic, version, counts,
-- metadata, alignment and tensor infos.
use project_willamette.Prelude.{
  ℕ, zero, suc, Bool, true, false, ◌&&◌, ◌||◌, Option, none, some, List, [], ◌∷◌, ltb, ◌==◌,
  if◌then◌else◌,
}
use project_willamette.Gguf.Result.{
  Result, ok, err, gguf_parse, invalid_magic, unsupported_version, bad_alignment, too_many_dims,
}
use project_willamette.Gguf.Types.{GgmlType, from_raw}
use project_willamette.Gguf.Cursor.{
  Reader, ◌>>=◌, ◌>>◌, pure, fail, lift, remaining, position, read_u32, read_u64, is_power_of_two,
}
use project_willamette.Gguf.Values.{
  GgufValue, as_u64, validate_count, read_gguf_string, read_gguf_value,
}

abbrev pub gguf_magic : ℕ
gguf_magic = 0x46554747

abbrev pub default_alignment : ℕ
default_alignment = 32

abbrev pub max_count : ℕ
max_count = 1000000

abbrev pub max_tensor_dims : ℕ
max_tensor_dims = 4

-- A map from keys to values; the newest entry of a key stands first, as `insert` replaces.
abbrev pub Metadata : Type 0
Metadata = List (List ℕ × GgufValue)

bytes_eq : List ℕ → List ℕ → Bool
bytes_eq [] [] = true
bytes_eq (a ∷ s) (b ∷ t) = a == b && bytes_eq s t
bytes_eq _ _ = false

unfoldable pub lookup_key : List ℕ → Metadata → Option GgufValue
unfolding bytes_eq
lookup_key key [] = none
lookup_key key ((k, v) ∷ m) = if bytes_eq k key then some v else lookup_key key m

pub record RawTensorInfo : Type 0 where
  pub name : List ℕ
  pub shape : List ℕ
  pub ggml_type : GgmlType
  pub relative_offset : ℕ

pub record TensorDescriptorLocation : Type 0 where
  pub dtype_offset : ℕ
  pub relative_offset_offset : ℕ

unfoldable pub read_magic : Reader (Unit {0})
read_magic = do
  magic ← read_u32
  if magic == gguf_magic then pure tt else λ _. err (invalid_magic magic)

unfoldable pub read_version : Reader ℕ
read_version = do
  version ← read_u32
  if version == 2 || version == 3 then pure version else λ _. err (unsupported_version version)

-- Both counts, each held against its limit and against the bytes that are left.
unfoldable pub read_counts : Reader (ℕ × ℕ)
read_counts = do
  tensor_count ← read_u64
  metadata_kv_count ← read_u64
  left ← remaining
  lift (validate_count tensor_count max_count left 24)
  lift (validate_count metadata_kv_count max_count left 13)
  pure (tensor_count, metadata_kv_count)

-- The loop over the metadata, `metadata` being what was read.
unfoldable pub read_metadata : ℕ → Metadata → Reader Metadata
read_metadata zero metadata = pure metadata
read_metadata (suc n) metadata = do
  key ← read_gguf_string
  value ← read_gguf_value
  read_metadata n ((key, value) ∷ metadata)

-- "general.alignment"
abbrev pub alignment_key : List ℕ
alignment_key =
    103 ∷ 101 ∷ 110 ∷ 101 ∷ 114 ∷ 97 ∷ 108 ∷ 46 ∷ 97 ∷ 108 ∷ 105 ∷ 103 ∷ 110 ∷ 109 ∷ 101 ∷ 110 ∷ 116
    ∷ []

value_alignment : Option GgufValue → Option ℕ
value_alignment none = none
value_alignment (some v) = as_u64 v

or_default : Option ℕ → ℕ
or_default none = default_alignment
or_default (some a) = a

unfoldable pub alignment_of : Metadata → Result ℕ
unfolding or_default value_alignment
alignment_of metadata =
    let alignment = or_default (value_alignment (lookup_key alignment_key metadata)) in
    if is_power_of_two alignment then ok alignment else err (gguf_parse (bad_alignment alignment))

-- The dimensions of a shape, in order.
unfoldable pub read_shape : ℕ → Reader (List ℕ)
read_shape zero = pure []
read_shape (suc n) = do dim ← read_u64; dims ← read_shape n; pure (dim ∷ dims)

unfoldable pub read_tensor_info : Reader (RawTensorInfo × TensorDescriptorLocation)
read_tensor_info = do
  name ← read_gguf_string
  n_dims ← read_u32
  if ltb max_tensor_dims n_dims then fail (too_many_dims n_dims) else (do
    shape ← read_shape n_dims
    dtype_offset ← position
    raw_type ← read_u32
    relative_offset_offset ← position
    relative_offset ← read_u64
    pure (
      record {
        name = name;
        shape = shape;
        ggml_type = from_raw raw_type;
        relative_offset = relative_offset;
      },
      record { dtype_offset = dtype_offset; relative_offset_offset = relative_offset_offset },
    ))

unfoldable pub read_tensor_infos : ℕ → Reader (List (RawTensorInfo × TensorDescriptorLocation))
read_tensor_infos zero = pure []
read_tensor_infos (suc n) = do
  info ← read_tensor_info
  infos ← read_tensor_infos n
  pure (info ∷ infos)

pub record Header : Type 0 where
  pub version : ℕ
  pub tensor_count : ℕ
  pub metadata : Metadata
  pub alignment : ℕ
  pub infos : List (RawTensorInfo × TensorDescriptorLocation)

unfoldable pub read_header : Reader Header
read_header = do
  read_magic
  version ← read_version
  (tensor_count, metadata_kv_count) ← read_counts
  metadata ← read_metadata metadata_kv_count []
  alignment ← lift (alignment_of metadata)
  left ← remaining
  lift (validate_count tensor_count max_count left 24)
  infos ← read_tensor_infos tensor_count
  pure (record {
    version = version;
    tensor_count = tensor_count;
    metadata = metadata;
    alignment = alignment;
    infos = infos;
  })
