-- ===== src/Gguf/Linker/Rows.antt =====
-- How many bytes `write_q6k_tensor` of src/gguf/linker.rs writes.
use project_willamette.Prelude.{
  ℕ, zero, suc, ◌+◌, ◌*◌, ◌/◌, ◌%◌, ◌≤◌, ◌<◌, ◌≡◌, refl, sym, ap, ◌∙◌, arith, Bool-cases,
  Option-cases, inl, inr, false, some, List, [], ◌∷◌, length, drop, replicate, length-append,
  length-drop, length-replicate, leb, le→leb, ◌==◌, checked_mul, checked_mul-some,
}
use native.Mathlib.Nat.{mul_comm, le-mul_of_pos_right}
use project_willamette.Gguf.Result.{
  ok, >>=-eq-ok, ok_or, ok_or-eq-ok, rows_overflow, row_size_overflow, size_overflow,
}
use project_willamette.Gguf.Lengths.{checked_product, row_local_len, q6k_expected_byte_len}
use project_willamette.Gguf.Lengths.Exact.{checked_product-eq}
use project_willamette.Gguf.Views.{TensorView}
use project_willamette.Gguf.Views.Checked.{ok-injective}
use project_willamette.Tokenizer.Bpe.Merged.{some-injective}
use project_willamette.Gguf.Linker.Writer.{
  Quantiser, chunks_exact, row_values, write_rows, write_q6k_rows, write_q6k_tensor,
}

-- A quantiser that leaves its buffer as long as it was, as a slice is in Rust.
abbrev pub KeepsLength : {F : Type 0} → Quantiser F → Type 0
KeepsLength {F} quantiser =
    (row : List F) (buffer out : List ℕ)
    → quantiser.quantize_row row buffer ≡ ok out
    → length out ≡ length buffer

-- A matrix of rows with some elements, each in two bytes.
abbrev pub IsMatrix : TensorView → ℕ → ℕ → Type 0
IsMatrix v row_elements rows =
    (v.shape ≡ row_elements ∷ rows ∷ [])
    × (0 < row_elements)
    × (length v.bytes ≡ rows * (row_elements * 2))

chunks_exact-length :
    (fuel n rows : ℕ) (bytes : List ℕ)
    → 0 < n
    → rows ≤ fuel
    → length bytes ≡ rows * n
    → length (chunks_exact fuel n bytes) ≡ rows
unfolding chunks_exact
chunks_exact-length zero n zero bytes some_byte enough exact = refl
chunks_exact-length zero n (suc rows) bytes some_byte enough exact = absurd (omega arith)
chunks_exact-length (suc fuel) n zero bytes some_byte enough exact =
    elim (Bool-cases (leb n (length bytes))) [
      | inl fits ↦ absurd (ground arith)
      | inr ends ↦ rw (chunks_exact, ends) refl
    ]
chunks_exact-length (suc fuel) n (suc rows) bytes some_byte enough exact =
    let total : length bytes ≡ n + rows * n = omega (arith, exact) in
    rw (chunks_exact, le→leb n (length bytes) (omega (arith, total)))
      (ap suc (
        chunks_exact-length fuel n rows (drop n bytes) some_byte (omega arith)
          (omega (arith, length-drop n bytes, total))))

zero_times : (n : ℕ) → 0 ≡ 0 * n
zero_times n = omega arith

module _ {F : Type 0} (quantiser : Quantiser F) (source : List ℕ)
    (keeps : KeepsLength quantiser) where
  write_rows-length :
      (chunks : List (List ℕ)) (quantized out : List ℕ)
      → write_rows quantiser source quantized chunks ≡ ok out
      → length out ≡ length chunks * length quantized
  unfolding write_rows
  write_rows-length [] quantized out h = ap length (ok-injective h) ∙ zero_times (length quantized)
  write_rows-length (c ∷ cs) quantized out h =
      let (q, q_ok, h1) =
        >>=-eq-ok (quantiser.quantize_row (row_values quantiser source c) quantized) _ h in
      let (rest, rest_ok, h2) = >>=-eq-ok (write_rows quantiser source q cs) _ h1 in
      let same = keeps (row_values quantiser source c) quantized q q_ok in
      let later : length rest ≡ length cs * length quantized =
        write_rows-length cs q rest rest_ok ∙ ap (λ n. length cs * n) same in
      ap length (ok-injective h2) ∙ length-append q rest ∙ omega (arith, same, later)

  expected-rows :
      (row_elements rows n : ℕ)
      → 0 < row_elements
      → q6k_expected_byte_len (row_elements ∷ rows ∷ []) ≡ ok n
      → n ≡ rows * (row_elements / 256 * 210)
  unfolding q6k_expected_byte_len row_local_len
  expected-rows row_elements rows n some_element h =
      let not_empty : (row_elements == 0) ≡ false = ground arith in
      elim (Bool-cases (row_elements % 256 == 0)) [
        | inr misaligned ↦ cc (rw (row_local_len, not_empty, misaligned) at h)
        | inl aligned ↦
            let (count, count_ok, h1) =
              >>=-eq-ok (checked_product rows_overflow 1 (rows ∷ [])) _
                (rw (row_local_len, not_empty, aligned) at h) in
            let (row_bytes, bytes_ok, h2) =
              >>=-eq-ok (ok_or (checked_mul (row_elements / 256) 210) row_size_overflow) _ h1 in
            let (n_eq, _) = checked_mul-some row_bytes count n (ok_or-eq-ok _ size_overflow n h2) in
            let (bytes_eq, _) =
              checked_mul-some (row_elements / 256) 210 row_bytes
                (ok_or-eq-ok _ row_size_overflow row_bytes bytes_ok) in
            let count_eq : count ≡ rows =
              checked_product-eq rows_overflow 1 (rows ∷ []) count count_ok ∙ omega arith in
            n_eq
            ∙ ap (λ b. b * count) bytes_eq
            ∙ ap (λ c. row_elements / 256 * 210 * c) count_eq
            ∙ mul_comm (row_elements / 256 * 210) rows
      ]

  -- For a matrix of `f16` rows, the bytes written are as many as q6k_expected_byte_len gives.
  pub write_q6k_tensor-length :
      (v : TensorView) (row_elements rows n : ℕ) (out : List ℕ)
      → IsMatrix v row_elements rows
      → q6k_expected_byte_len v.shape ≡ ok n
      → write_q6k_tensor quantiser source v ≡ some (ok out)
      → length out ≡ n
  unfolding write_q6k_tensor write_q6k_rows
  write_q6k_tensor-length v row_elements rows n out (shape, some_element, exact) expected h =
      elim (Option-cases (checked_mul row_elements 2)) [
        | inl over ↦ cc (rw (write_q6k_tensor, shape, write_q6k_rows, over) at h)
        | inr (row_bytes, fits) ↦
            let (width, _) = checked_mul-some row_elements 2 row_bytes fits in
            let not_empty : (row_bytes == 0) ≡ false = ground (arith, width) in
            let runs : write_q6k_tensor quantiser source v
                ≡ some (
                    write_rows quantiser source (replicate (row_elements / 256 * 210) 0)
                      (chunks_exact (length v.bytes) row_bytes v.bytes)) =
              rw (write_q6k_tensor, shape, write_q6k_rows, fits, not_empty) refl in
            write_rows-length (chunks_exact (length v.bytes) row_bytes v.bytes)
              (replicate (row_elements / 256 * 210) 0) out (some-injective (sym runs ∙ h))
            ∙ ap (λ c. c * length {A = ℕ} (replicate (row_elements / 256 * 210) 0))
                (chunks_exact-length (length v.bytes) row_bytes rows v.bytes (omega (arith, width))
                  (at_most rows row_bytes (length v.bytes) (omega (arith, width))
                    (exact ∙ ap (λ w. rows * w) (sym width)))
                  (exact ∙ ap (λ w. rows * w) (sym width)))
            ∙ ap (λ b. rows * b) (length-replicate {A = ℕ} (row_elements / 256 * 210) 0)
            ∙ sym (
                expected-rows row_elements rows n some_element
                  (ap q6k_expected_byte_len (sym shape) ∙ expected))
      ]
    where
      at_most : (m w n : ℕ) → 0 < w → n ≡ m * w → m ≤ n
      at_most m w n some_w e = omega (arith, e, le-mul_of_pos_right m some_w)
