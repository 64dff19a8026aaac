-- ===== src/Gguf/Types.antt =====
-- src/gguf/types.rs: the type tags of tensors and of metadata values.
use project_willamette.Prelude.{ℕ, ◌≡◌, arith, Bool, true, false, ◌==◌, if◌then◌else◌}

pub data GgmlType : Type 0 where
  f32 f16 q4_0 q4_1 q5_0 q5_1 q8_0 q8_1 q2_k q3_k q4_k q5_k q6_k q8_k iq2_xxs iq2_xs : GgmlType
  iq3_xxs iq1_s iq4_nl iq3_s iq2_s iq4_xs i8 i16 i32 i64 f64 iq1_m bf16 i2_s i8_s tl1 tl2 : GgmlType
  unknown : ℕ → GgmlType

unfoldable pub from_raw : ℕ → GgmlType
from_raw raw =
    if raw == 0
    then f32
    else if raw == 1
    then f16
    else if raw == 2
    then q4_0
    else if raw == 3
    then q4_1
    else if raw == 6
    then q5_0
    else if raw == 7
    then q5_1
    else if raw == 8
    then q8_0
    else if raw == 9
    then q8_1
    else if raw == 10
    then q2_k
    else if raw == 11
    then q3_k
    else if raw == 12
    then q4_k
    else if raw == 13
    then q5_k
    else if raw == 14
    then q6_k
    else if raw == 15
    then q8_k
    else if raw == 16
    then iq2_xxs
    else if raw == 17
    then iq2_xs
    else if raw == 18
    then iq3_xxs
    else if raw == 19
    then iq1_s
    else if raw == 20
    then iq4_nl
    else if raw == 21
    then iq3_s
    else if raw == 22
    then iq2_s
    else if raw == 23
    then iq4_xs
    else if raw == 24
    then i8
    else if raw == 25
    then i16
    else if raw == 26
    then i32
    else if raw == 27
    then i64
    else if raw == 28
    then f64
    else if raw == 29
    then iq1_m
    else if raw == 30
    then bf16
    else if raw == 36
    then i2_s
    else if raw == 37
    then i8_s
    else if raw == 38
    then tl1
    else if raw == 39
    then tl2
    else unknown raw

unfoldable pub to_raw : GgmlType → ℕ
to_raw f32 = 0
to_raw f16 = 1
to_raw q4_0 = 2
to_raw q4_1 = 3
to_raw q5_0 = 6
to_raw q5_1 = 7
to_raw q8_0 = 8
to_raw q8_1 = 9
to_raw q2_k = 10
to_raw q3_k = 11
to_raw q4_k = 12
to_raw q5_k = 13
to_raw q6_k = 14
to_raw q8_k = 15
to_raw iq2_xxs = 16
to_raw iq2_xs = 17
to_raw iq3_xxs = 18
to_raw iq1_s = 19
to_raw iq4_nl = 20
to_raw iq3_s = 21
to_raw iq2_s = 22
to_raw iq4_xs = 23
to_raw i8 = 24
to_raw i16 = 25
to_raw i32 = 26
to_raw i64 = 27
to_raw f64 = 28
to_raw iq1_m = 29
to_raw bf16 = 30
to_raw i2_s = 36
to_raw i8_s = 37
to_raw tl1 = 38
to_raw tl2 = 39
to_raw (unknown v) = v

unfoldable pub is_bitnet : GgmlType → Bool
is_bitnet i2_s = true
is_bitnet i8_s = true
is_bitnet tl1 = true
is_bitnet tl2 = true
is_bitnet _ = false

-- The tag in front of a metadata value.
pub data GgufMetadataValueType : Type 0 where
  uint8 int8 uint16 int16 uint32 int32 float32 bool string array uint64 int64 float64 :
      GgufMetadataValueType
  unknown_value : ℕ → GgufMetadataValueType

unfoldable pub value_type_from_raw : ℕ → GgufMetadataValueType
value_type_from_raw raw =
    if raw == 0
    then uint8
    else if raw == 1
    then int8
    else if raw == 2
    then uint16
    else if raw == 3
    then int16
    else if raw == 4
    then uint32
    else if raw == 5
    then int32
    else if raw == 6
    then float32
    else if raw == 7
    then bool
    else if raw == 8
    then string
    else if raw == 9
    then array
    else if raw == 10
    then uint64
    else if raw == 11
    then int64
    else if raw == 12
    then float64
    else unknown_value raw

-- The tag of the type that `from_raw` makes of a number is that number.
pub to_raw-from_raw : (raw : ℕ) → to_raw (from_raw raw) ≡ raw
unfolding to_raw from_raw
to_raw-from_raw raw = ground arith
