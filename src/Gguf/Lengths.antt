-- ===== src/Gguf/Lengths.antt =====
-- src/gguf/tensor.rs and `compute_tensor_byte_len` of src/gguf/reader.rs: the bytes of a tensor,
-- from its shape and type.
pub mod Exact
use project_willamette.Prelude.{
  ℕ, zero, suc, ◌+◌, ◌*◌, ◌/◌, ◌%◌, ◌<◌, ◌≡◌, refl, arith, Bool, Option, none, some, List, [], ◌∷◌,
  ◌==◌, if◌then◌else◌, checked_mul, checked_mul-some, u64_mod,
}
use project_willamette.Gguf.Result.{
  Result, ok, err, ok_or, ◌>>=◌, gguf_parse, no_dims, misaligned_row, rows_overflow,
  row_size_overflow, size_overflow, shape_overflow, misaligned_blocks, length_overflow, Problem,
}
use project_willamette.Gguf.Types.{
  GgmlType, f32, f16, q4_0, q4_1, q5_0, q5_1, q8_0, q8_1, q2_k, q3_k, q4_k, q5_k, q6_k, q8_k, i8,
  i16, i32, i64, f64, bf16, i2_s, i8_s,
}

-- `try_fold(acc, checked_mul)` over dimensions.
unfoldable pub checked_product : Problem → ℕ → List ℕ → Result ℕ
checked_product p acc [] = ok acc
checked_product p acc (dim ∷ dims) = do
  next ← ok_or (checked_mul acc dim) p
  checked_product p next dims

-- The length of a tensor whose rows are whole blocks: the body that the four functions below share.
unfoldable pub row_local_len : ℕ → ℕ → List ℕ → Result ℕ
row_local_len block bytes [] = err (gguf_parse no_dims)
row_local_len block bytes (row ∷ outer) =
    if row == 0
    then ok 0
    else if row % block == 0
    then (do
      rows ← checked_product rows_overflow 1 outer
      row_bytes ← ok_or (checked_mul (row / block) bytes) row_size_overflow
      ok_or (checked_mul row_bytes rows) size_overflow)
    else err (gguf_parse misaligned_row)

unfoldable pub q4k_expected_byte_len : List ℕ → Result ℕ
q4k_expected_byte_len shape = row_local_len 256 144 shape

unfoldable pub q4_0_expected_byte_len : List ℕ → Result ℕ
q4_0_expected_byte_len shape = row_local_len 32 18 shape

unfoldable pub q8_0_expected_byte_len : List ℕ → Result ℕ
q8_0_expected_byte_len shape = row_local_len 32 34 shape

unfoldable pub q6k_expected_byte_len : List ℕ → Result ℕ
q6k_expected_byte_len shape = row_local_len 256 210 shape

-- The block size and the bytes of a block.
unfoldable pub layout : GgmlType → Option (ℕ × ℕ)
layout f32 = some (1, 4)
layout f16 = some (1, 2)
layout bf16 = some (1, 2)
layout f64 = some (1, 8)
layout i8 = some (1, 1)
layout i16 = some (1, 2)
layout i32 = some (1, 4)
layout i64 = some (1, 8)
layout q4_1 = some (32, 20)
layout q5_0 = some (32, 22)
layout q5_1 = some (32, 24)
layout q8_1 = some (32, 40)
layout q2_k = some (256, 84)
layout q3_k = some (256, 110)
layout q5_k = some (256, 176)
layout q8_k = some (256, 292)
layout i2_s = some (128, 32)
layout i8_s = some (1, 1)
layout _ = none

blocks_len : ℕ → Option (ℕ × ℕ) → Result (Option ℕ)
blocks_len n none = ok none
blocks_len n (some (block, bytes)) =
    if n % block == 0
    then (do len ← ok_or (checked_mul (n / block) bytes) length_overflow; ok (some len))
    else err (gguf_parse misaligned_blocks)

-- The path of the types that are not row-local.
unfoldable pub flat_len : List ℕ → GgmlType → Result (Option ℕ)
unfolding blocks_len
flat_len shape t = do
  n ← checked_product shape_overflow 1 shape
  if n == 0 then ok (some 0) else blocks_len n (layout t)

unfoldable pub compute_tensor_byte_len : List ℕ → GgmlType → Result (Option ℕ)
compute_tensor_byte_len shape q4_0 = do len ← q4_0_expected_byte_len shape; ok (some len)
compute_tensor_byte_len shape q6_k = do len ← q6k_expected_byte_len shape; ok (some len)
compute_tensor_byte_len shape q4_k = do len ← q4k_expected_byte_len shape; ok (some len)
compute_tensor_byte_len shape q8_0 = do len ← q8_0_expected_byte_len shape; ok (some len)
compute_tensor_byte_len shape t = flat_len shape t
