-- ===== src/Gguf/Values.antt =====
-- src/gguf/reader.rs: metadata values. A signed or floating value is kept as its word, a string as
-- its bytes.
use project_willamette.Prelude.{
  ℕ, zero, suc, ◌+◌, ◌^◌, Bool, not, Option, none, some, List, ltb, ◌==◌, if◌then◌else◌,
  checked_mul,
}
use project_willamette.Gguf.Result.{
  Result, ok, err, gguf_parse, invalid_utf8, string_limit, array_depth, array_limit, array_overflow,
  array_no_fit, unknown_type, count_limit, count_overflow, count_no_fit,
}
use project_willamette.Gguf.Types.{
  GgufMetadataValueType, value_type_from_raw, uint8, int8, uint16, int16, uint32, int32, float32,
  bool, string, array, uint64, int64, float64, unknown_value,
}
use project_willamette.Gguf.Cursor.{
  Reader, ◌>>=◌, ◌>>◌, pure, fail, lift, remaining, read_bytes, read_u8, read_u16, read_u32,
  read_u64, is_utf8,
}

mutual
  pub data GgufValue : Type 0 where
    uint8_value int8_value uint16_value int16_value uint32_value int32_value float32_value :
        ℕ → GgufValue
    boolean_value : Bool → GgufValue
    str_value : List ℕ → GgufValue
    uint64_value int64_value float64_value : ℕ → GgufValue
    array_value : GgufValues → GgufValue

  pub data GgufValues : Type 0 where
    nil : GgufValues
    cons : GgufValue → GgufValues → GgufValues

-- A signed word that is not negative is itself.
unfoldable pub as_u64 : GgufValue → Option ℕ
as_u64 (GgufValue.uint8_value v) = some v
as_u64 (GgufValue.uint16_value v) = some v
as_u64 (GgufValue.uint32_value v) = some v
as_u64 (GgufValue.uint64_value v) = some v
as_u64 (GgufValue.int32_value v) = if ltb v (2 ^ 31) then some v else none
as_u64 (GgufValue.int64_value v) = if ltb v (2 ^ 63) then some v else none
as_u64 _ = none

unfoldable pub as_str : GgufValue → Option (List ℕ)
as_str (GgufValue.str_value s) = some s
as_str _ = none

-- MAX_METADATA_ARRAY_ELEMENTS and MAX_METADATA_ARRAY_DEPTH
abbrev pub max_array_elements : ℕ
max_array_elements = 1000000

abbrev pub max_array_depth : ℕ
max_array_depth = 16

unfoldable pub validate_count : ℕ → ℕ → ℕ → ℕ → Result (Unit {0})
validate_count count limit left minimum_entry_bytes =
    if ltb limit count
    then err (gguf_parse count_limit)
    else elim (checked_mul count minimum_entry_bytes) [
      | none ↦ err (gguf_parse count_overflow)
      | some minimum ↦ if ltb left minimum then err (gguf_parse count_no_fit) else ok tt
    ]

unfoldable pub read_gguf_string : Reader (List ℕ)
read_gguf_string = do
  len ← read_u64
  if ltb 1048576 len
      then fail string_limit
      else (do buf ← read_bytes len; if is_utf8 buf then pure buf else fail invalid_utf8)

unfoldable pub element_bytes : GgufMetadataValueType → Option ℕ
element_bytes uint8 = some 1
element_bytes int8 = some 1
element_bytes bool = some 1
element_bytes uint16 = some 2
element_bytes int16 = some 2
element_bytes uint32 = some 4
element_bytes int32 = some 4
element_bytes float32 = some 4
element_bytes uint64 = some 8
element_bytes int64 = some 8
element_bytes float64 = some 8
element_bytes string = some 8
element_bytes array = some 12
element_bytes (unknown_value t) = none

unfoldable pub tag_of : GgufMetadataValueType → ℕ
tag_of (unknown_value t) = t
tag_of _ = 0

unfoldable pub validate_array : GgufMetadataValueType → ℕ → ℕ → ℕ → Result (Unit {0})
validate_array elem_type count depth left =
    if ltb max_array_depth depth
    then err (gguf_parse array_depth)
    else if ltb max_array_elements count
    then err (gguf_parse array_limit)
    else elim (element_bytes elem_type) [
      | none ↦ err (gguf_parse (unknown_type (tag_of elem_type)))
      | some bytes ↦ elim (checked_mul count bytes) [
        | none ↦ err (gguf_parse array_overflow)
        | some minimum ↦ if ltb left minimum then err (gguf_parse array_no_fit) else ok tt
      ]
    ]

-- The loop over the elements of an array.
unfoldable pub read_many : ℕ → Reader GgufValue → Reader GgufValues
read_many zero read = pure nil
read_many (suc n) read = do v ← read; vs ← read_many n read; pure (cons v vs)

-- The element type and the count of an array at `depth`, once they are validated.
unfoldable pub read_array_head : ℕ → Reader (GgufMetadataValueType × ℕ)
read_array_head depth = do
  elem_type_raw ← read_u32
  count ← read_u64
  left ← remaining
  lift (validate_array (value_type_from_raw elem_type_raw) count depth left)
  pure (value_type_from_raw elem_type_raw, count)

-- A value whose tag is known. An array goes to `nested`.
unfoldable pub read_by_type : Reader GgufValue → GgufMetadataValueType → Reader GgufValue
read_by_type nested uint8 = do v ← read_u8; pure (GgufValue.uint8_value v)
read_by_type nested int8 = do v ← read_u8; pure (GgufValue.int8_value v)
read_by_type nested uint16 = do v ← read_u16; pure (GgufValue.uint16_value v)
read_by_type nested int16 = do v ← read_u16; pure (GgufValue.int16_value v)
read_by_type nested uint32 = do v ← read_u32; pure (GgufValue.uint32_value v)
read_by_type nested int32 = do v ← read_u32; pure (GgufValue.int32_value v)
read_by_type nested float32 = do v ← read_u32; pure (GgufValue.float32_value v)
read_by_type nested bool = do v ← read_u8; pure (GgufValue.boolean_value (not (v == 0)))
read_by_type nested string = do s ← read_gguf_string; pure (GgufValue.str_value s)
read_by_type nested array = nested
read_by_type nested uint64 = do v ← read_u64; pure (GgufValue.uint64_value v)
read_by_type nested int64 = do v ← read_u64; pure (GgufValue.int64_value v)
read_by_type nested float64 = do v ← read_u64; pure (GgufValue.float64_value v)
read_by_type nested (unknown_value t) = fail (unknown_type t)

-- `read_gguf_typed_value` at `depth`, with `room` levels below it: `room + depth` is the greatest
-- depth that `validate_array` lets pass, so with no room left the head of the array is refused.
unfoldable pub read_gguf_typed_value : ℕ → ℕ → GgufMetadataValueType → Reader GgufValue
read_gguf_typed_value zero depth vtype =
    read_by_type (do read_array_head (depth + 1); fail array_depth) vtype
read_gguf_typed_value (suc room) depth vtype =
    let read = read_gguf_typed_value room (depth + 1) in
    read_by_type
      (do
        (elem_type, count) ← read_array_head (depth + 1)
        vs ← read_many count (read elem_type)
        pure (GgufValue.array_value vs))
      vtype

unfoldable pub read_gguf_value : Reader GgufValue
read_gguf_value = do
  raw_type ← read_u32
  read_gguf_typed_value max_array_depth 0 (value_type_from_raw raw_type)
