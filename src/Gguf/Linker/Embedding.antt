-- ===== src/Gguf/Linker/Embedding.antt =====
-- `validate_q6k_embedding` of src/gguf/linker.rs, which profile_transform makes of the tensor to transform,
-- and what it and the parser tell of that tensor.
use project_willamette.Prelude.{
  ℕ, ◌+◌, ◌*◌, ◌<◌, ◌≡◌, refl, sym, ap, ◌∙◌, arith, Bool, true, false, some, List, [], ◌∷◌,
  get_elem?, Bool-cases, inl, inr, ◌==◌, if◌then◌else◌,
}
use native.Mathlib.Nat.{mul_comm, mul_assoc}
use project_willamette.Gguf.Result.{
  Result, ok, err, ◌>>=◌, >>=-eq-ok, gguf_parse, not_matrix, zero_width, not_finite,
}
use project_willamette.Gguf.Types.{
  GgmlType, f32, f16, q4_0, q4_1, q5_0, q5_1, q8_0, q8_1, q2_k, q3_k, q4_k, q5_k, q6_k, q8_k,
  iq2_xxs, iq2_xs, iq3_xxs, iq1_s, iq4_nl, iq3_s, iq2_s, iq4_xs, i8, i16, i32, i64, f64, iq1_m,
  bf16, i2_s, i8_s, tl1, tl2, unknown,
}
use project_willamette.Gguf.Lengths.{layout, q6k_expected_byte_len, compute_tensor_byte_len}
use project_willamette.Gguf.Lengths.Exact.{product, compute_tensor_byte_len-exact}
use project_willamette.Gguf.Views.{TensorView, GgufFile, parse}
use project_willamette.Gguf.Views.Checked.{ok-injective}
use project_willamette.Gguf.Views.Disjoint.{parse_in_bounds}
use project_willamette.Gguf.Linker.Writer.{Quantiser}
use project_willamette.Gguf.Linker.Rows.{IsMatrix}

unfoldable pub is_f16 : GgmlType → Bool
is_f16 f16 = true
is_f16 _ = false

module _ {F : Type 0} (quantiser : Quantiser F) where
  unfoldable pub validate_finite_f16 : List ℕ → Result (Unit {0})
  validate_finite_f16 (low ∷ high ∷ rest) =
      let later = validate_finite_f16 rest in
      if quantiser.is_finite (quantiser.f16_to_f32 (low + 256 * high))
      then later
      else err (gguf_parse not_finite)
  validate_finite_f16 _ = ok tt

  -- The checks of the shape and of the values, for a tensor of `f16`.
  unfoldable pub validate_shape : List ℕ → List ℕ → Result ℕ
  validate_shape (row_elements ∷ rows ∷ []) bytes =
      if row_elements == 0 then err (gguf_parse zero_width) else (do
        output_bytes ← q6k_expected_byte_len (row_elements ∷ rows ∷ [])
        _ ← validate_finite_f16 bytes
        ok output_bytes)
  validate_shape _ bytes = err (gguf_parse not_matrix)

  unfoldable pub validate_q6k_embedding : TensorView → Result ℕ
  validate_q6k_embedding embedding =
      let output_bytes = validate_shape embedding.shape embedding.bytes in
      if is_f16 embedding.ggml_type then output_bytes else err (gguf_parse not_matrix)

  validate_shape-ok :
      (shape bytes : List ℕ) (n : ℕ)
      → validate_shape shape bytes ≡ ok n
      → (row_elements : ℕ) × (rows : ℕ) × (shape ≡ row_elements ∷ rows ∷ [])
        × (0 < row_elements)
        × (q6k_expected_byte_len shape ≡ ok n)
  unfolding validate_shape
  validate_shape-ok [] bytes n h = cc
  validate_shape-ok (a ∷ []) bytes n h = cc
  validate_shape-ok (a ∷ b ∷ c ∷ rest) bytes n h = cc
  validate_shape-ok (a ∷ b ∷ []) bytes n h = elim (Bool-cases (a == 0)) [
    | inl empty ↦ cc (rw empty at h)
    | inr some_element ↦
        let (m, m_ok, h1) =
          >>=-eq-ok (q6k_expected_byte_len (a ∷ b ∷ [])) _ (rw some_element at h) in
        let (_, _, h2) = >>=-eq-ok (validate_finite_f16 bytes) _ h1 in
        (a, b, refl, nonzero a some_element, m_ok ∙ sym (ap ok (ok-injective h2)))
  ]
    where
      nonzero : (n : ℕ) → (n == 0) ≡ false → 0 < n
      nonzero n h = ground arith

  f16_only : (t : GgmlType) → is_f16 t ≡ true → t ≡ f16
  unfolding is_f16
  f16_only f32 h = cc
  f16_only f16 h = refl
  f16_only q4_0 h = cc
  f16_only q4_1 h = cc
  f16_only q5_0 h = cc
  f16_only q5_1 h = cc
  f16_only q8_0 h = cc
  f16_only q8_1 h = cc
  f16_only q2_k h = cc
  f16_only q3_k h = cc
  f16_only q4_k h = cc
  f16_only q5_k h = cc
  f16_only q6_k h = cc
  f16_only q8_k h = cc
  f16_only iq2_xxs h = cc
  f16_only iq2_xs h = cc
  f16_only iq3_xxs h = cc
  f16_only iq1_s h = cc
  f16_only iq4_nl h = cc
  f16_only iq3_s h = cc
  f16_only iq2_s h = cc
  f16_only iq4_xs h = cc
  f16_only i8 h = cc
  f16_only i16 h = cc
  f16_only i32 h = cc
  f16_only i64 h = cc
  f16_only f64 h = cc
  f16_only iq1_m h = cc
  f16_only bf16 h = cc
  f16_only i2_s h = cc
  f16_only i8_s h = cc
  f16_only tl1 h = cc
  f16_only tl2 h = cc
  f16_only (unknown _) h = cc

  -- An embedding that the parser made and the linker accepts is a matrix of `f16` rows.
  pub validate_q6k_embedding-IsMatrix :
      (source : List ℕ) (g : GgufFile) (i : ℕ) (v : TensorView) (n : ℕ)
      → parse source ≡ ok g
      → get_elem? g.tensors i ≡ some v
      → validate_q6k_embedding v ≡ ok n
      → (row_elements : ℕ) × (rows : ℕ) × IsMatrix v row_elements rows
        × (q6k_expected_byte_len v.shape ≡ ok n)
  unfolding validate_q6k_embedding layout
  validate_q6k_embedding-IsMatrix source g i v n parsed at h =
      elim (Bool-cases (is_f16 v.ggml_type)) [
        | inr other ↦ cc (rw (validate_q6k_embedding, other) at h)
        | inl half ↦
            let (a, b, shape, some_element, expected) =
              validate_shape-ok v.shape v.bytes n (rw (validate_q6k_embedding, half) at h) in
            let (_, _, whole, computed) = parse_in_bounds source g parsed i v at in
            let typed : compute_tensor_byte_len v.shape f16 ≡ ok (some v.byte_len) =
              ap (compute_tensor_byte_len v.shape) (sym (f16_only v.ggml_type half)) ∙ computed in
            let exact : v.byte_len * 1 ≡ product v.shape * 2 =
              (compute_tensor_byte_len-exact v.shape f16 1 2 v.byte_len refl typed).0 in
            (
              a,
              b,
              (
                shape,
                some_element,
                whole ∙ bytes_of a b v.byte_len (exact ∙ ap (λ s. product s * 2) shape),
              ),
              expected,
            )
      ]
    where
      bytes_of : (a b n : ℕ) → n * 1 ≡ a * (b * 1) * 2 → n ≡ b * (a * 2)
      bytes_of a b n e = omega (arith, e) ∙ ap (λ w. w * 2) (mul_comm a b) ∙ mul_assoc b a 2
