-- ===== src/Gguf/Lengths/Exact.antt =====
-- The byte length that is computed is the exact size of the blocks, with no wrap-around.
use project_willamette.Prelude.{
  ℕ, ◌*◌, ◌/◌, ◌%◌, ◌<◌, ◌≡◌, sym, ap, ◌∙◌, arith, Option, some, List, [], ◌∷◌, ◌==◌, checked_mul,
  checked_mul-some, u64_mod, Bool-cases, ==_iff, inl, inr,
}
use project_willamette.Gguf.Result.{
  ok, ok_or, ◌>>=◌, >>=-eq-ok, ok_or-eq-ok, Problem, rows_overflow, row_size_overflow,
  size_overflow, shape_overflow, length_overflow,
}
use project_willamette.Gguf.Types.{GgmlType, q4_0, q8_0, q4_k, q6_k}
use project_willamette.Gguf.Lengths.{
  checked_product, row_local_len, layout, blocks_len, flat_len, compute_tensor_byte_len,
  q4_0_expected_byte_len, q6k_expected_byte_len, q4k_expected_byte_len, q8_0_expected_byte_len,
}
use native.Mathlib.Nat.{div-add-mod}

-- The number of elements of a shape.
abbrev pub product : List ℕ → ℕ
product [] = 1
product (d ∷ ds) = d * product ds

-- The block sizes of GGML, those of the row-local types included.
abbrev pub block_of : GgmlType → Option (ℕ × ℕ)
block_of q4_0 = some (32, 18)
block_of q8_0 = some (32, 34)
block_of q4_k = some (256, 144)
block_of q6_k = some (256, 210)
block_of t = layout t

pub checked_product-eq :
    (p : Problem) (acc : ℕ) (dims : List ℕ) (n : ℕ)
    → checked_product p acc dims ≡ ok n
    → n ≡ acc * product dims
unfolding checked_product
checked_product-eq p acc [] n h = ground arith
checked_product-eq p acc (d ∷ ds) n h =
    let (next, e, rest) = >>=-eq-ok (ok_or (checked_mul acc d) p) _ h in
    let (next_eq, _) = checked_mul-some acc d next (ok_or-eq-ok _ p next e) in
    checked_product-eq p next ds n rest ∙ rw next_eq (omega arith)

blocks_exact : (row E B rows : ℕ) → row % E ≡ 0 → row / E * B * rows * E ≡ row * rows * B
blocks_exact row E B rows h =
    omega (arith, ap (λ t. t * rows * B) (div-add-mod row E), ap (λ t. t * rows * B) h)

aligned_exact :
    (E B row : ℕ) (outer : List ℕ) (n : ℕ)
    → row % E ≡ 0
    → (do
      rows ← checked_product rows_overflow 1 outer
      row_bytes ← ok_or (checked_mul (row / E) B) row_size_overflow
      ok_or (checked_mul row_bytes rows) size_overflow)
      ≡ ok n
    → (n * E ≡ row * product outer * B) × (n < u64_mod)
aligned_exact E B row outer n aligned h =
    let (rows, rows_ok, h1) = >>=-eq-ok (checked_product rows_overflow 1 outer) _ h in
    let (row_bytes, bytes_ok, h2) =
      >>=-eq-ok (ok_or (checked_mul (row / E) B) row_size_overflow) _ h1 in
    let (n_eq, fits) = checked_mul-some row_bytes rows n (ok_or-eq-ok _ size_overflow n h2) in
    let (bytes_eq, _) =
      checked_mul-some (row / E) B row_bytes (ok_or-eq-ok _ row_size_overflow row_bytes bytes_ok) in
    let rows_eq : rows ≡ product outer =
      checked_product-eq rows_overflow 1 outer rows rows_ok ∙ omega arith in
    (rw (n_eq, bytes_eq, rows_eq) (blocks_exact row E B (product outer) aligned), fits)

row_local_exact :
    (E B : ℕ) (shape : List ℕ) (n : ℕ)
    → row_local_len E B shape ≡ ok n
    → (n * E ≡ product shape * B) × (n < u64_mod)
unfolding row_local_len
row_local_exact E B [] n h = cc
row_local_exact E B (row ∷ outer) n h = elim (Bool-cases (row == 0)) [
  | inl empty ↦
      let no_row : row ≡ 0 = (==_iff _ _).0 empty in
      let no_byte : n ≡ 0 = ground arith in rw (no_row, no_byte) (omega arith)
  | inr some_row ↦ elim (Bool-cases (row % E == 0)) [
    | inr misaligned ↦ cc (rw (some_row, misaligned) at h)
    | inl aligned ↦
        aligned_exact E B row outer n ((==_iff _ _).0 aligned) (rw (some_row, aligned) at h)
  ]
]

flat_blocks :
    (count E B n : ℕ)
    → blocks_len count (some (E, B)) ≡ ok (some n)
    → (n * E ≡ count * B) × (n < u64_mod)
unfolding blocks_len
flat_blocks count E B n h = elim (Bool-cases (count % E == 0)) [
  | inr misaligned ↦ cc (rw misaligned at h)
  | inl aligned ↦
      let (len, len_ok, h1) =
        >>=-eq-ok (ok_or (checked_mul (count / E) B) length_overflow) _ (rw aligned at h) in
      let (len_eq, fits) =
        checked_mul-some (count / E) B len (ok_or-eq-ok _ length_overflow len len_ok) in
      let n_eq : n ≡ len = ground arith in
      let exact : count / E * B * 1 * E ≡ count * 1 * B =
        blocks_exact count E B 1 ((==_iff _ _).0 aligned) in
      (rw (n_eq, len_eq) (omega arith), omega arith)
]

flat_exact :
    (shape : List ℕ) (t : GgmlType) (E B n : ℕ)
    → layout t ≡ some (E, B)
    → flat_len shape t ≡ ok (some n)
    → (n * E ≡ product shape * B) × (n < u64_mod)
unfolding flat_len
flat_exact shape t E B n t_eq h =
    let (count, count_ok, h1) = >>=-eq-ok (checked_product shape_overflow 1 shape) _ h in
    let count_eq : count ≡ product shape =
      checked_product-eq shape_overflow 1 shape count count_ok ∙ omega arith in
    elim (Bool-cases (count == 0)) [
      | inl empty ↦
          let none_left : product shape ≡ 0 = sym count_eq ∙ (==_iff _ _).0 empty in
          let no_byte : n ≡ 0 = ground arith in rw (none_left, no_byte) (omega arith)
      | inr more ↦ rw (← count_eq) (flat_blocks count E B n (rw (more, t_eq) at h1))
    ]

row_exact :
    (E' B' E B : ℕ) (shape : List ℕ) (n : ℕ)
    → ◌≡◌ {A = Option (ℕ × ℕ)} (some (E', B')) (some (E, B))
    → (do len ← row_local_len E' B' shape; ok (some len)) ≡ ok (some n)
    → (n * E ≡ product shape * B) × (n < u64_mod)
row_exact E' B' E B shape n e h =
    let (len, len_ok, h1) = >>=-eq-ok (row_local_len E' B' shape) _ h in
    let same : (E' ≡ E) × (B' ≡ B) × (len ≡ n) = ground arith in
    let (exact, fits) = row_local_exact E' B' shape len len_ok in
    rw (← same.0, ← same.1, ← same.2) (exact, fits)

-- A length that is returned is, in whole blocks of the type, the size of the elements of the shape,
-- and fits 64 bits.
pub compute_tensor_byte_len-exact :
    (shape : List ℕ) (t : GgmlType) (E B n : ℕ)
    → block_of t ≡ some (E, B)
    → compute_tensor_byte_len shape t ≡ ok (some n)
    → (n * E ≡ product shape * B) × (n < u64_mod)
unfolding compute_tensor_byte_len q4_0_expected_byte_len q6k_expected_byte_len q4k_expected_byte_len
    q8_0_expected_byte_len
compute_tensor_byte_len-exact shape q4_0 E B n e h = row_exact 32 18 E B shape n e h
compute_tensor_byte_len-exact shape q6_k E B n e h = row_exact 256 210 E B shape n e h
compute_tensor_byte_len-exact shape q4_k E B n e h = row_exact 256 144 E B shape n e h
compute_tensor_byte_len-exact shape q8_0 E B n e h = row_exact 32 34 E B shape n e h
compute_tensor_byte_len-exact shape t E B n e h = flat_exact shape t E B n e h
