-- ===== src/Gguf/Linker/Written.antt =====
-- That the position which `write_artifact` of src/gguf/linker.rs counts is the length of its output.
use project_willamette.Prelude.{
  ℕ, ◌≡◌, refl, sym, ap, ◌∙◌, arith, Option, none, some, List, [], ◌∷◌, ◌++◌, length, replicate,
  get_elem?, ◌==◌, checked_add, checked_sub, checked_add-some, checked_sub-some, length-append,
  length-replicate, inl, inr, Bool-cases, All,
}
use project_willamette.Gguf.Result.{
  Result, ok, err, ok_or, >>=-eq-ok, ok_or-eq-ok, position_overflow, not_monotonic,
  slot_end_overflow, absolute_overflow,
}
use project_willamette.Gguf.Views.{TensorView, GgufFile, parse}
use project_willamette.Gguf.Views.Checked.{ok-injective}
use project_willamette.Gguf.Linker.Selected.{IsSelected, build_plan-Selects}
use project_willamette.Gguf.Linker.Embedding.{
  validate_q6k_embedding, validate_q6k_embedding-IsMatrix,
}
use project_willamette.Gguf.Linker.{
  ArtifactProfile, Transform, build_plan, LinkPlan, PlannedTensor, TensorAction, copy,
  quantize_f16_to_q6_k,
}
use project_willamette.Gguf.Outcome.{Outcome}
use project_willamette.Gguf.Lengths.{q6k_expected_byte_len}
use project_willamette.Tokenizer.Bpe.Merged.{some-injective}
use project_willamette.Gguf.Linker.Rows.{KeepsLength, IsMatrix, write_q6k_tensor-length}
use project_willamette.Gguf.Linker.Writer.{
  Quantiser, copy_slot, write_suffix, write_q6k_tensor, patched_header, source_slice, Output,
  write_tensor, pad, write_one, write_all, finish, write_artifact,
}

-- The position is the length of what is written.
abbrev Counted : Output → Type 0
Counted o = o.position ≡ length o.written

-- What the linker has checked of a tensor that it transforms: it is a matrix of `f16` rows, and its planned
-- bytes are those that q6k_expected_byte_len gives for its shape.
abbrev pub IsPlanned : GgufFile → PlannedTensor → Type 0
IsPlanned g p =
    (v : TensorView)
    → p.action ≡ quantize_f16_to_q6_k
    → get_elem? g.tensors p.source_index ≡ some v
    → (row_elements : ℕ) × (rows : ℕ) × IsMatrix v row_elements rows
      × (q6k_expected_byte_len v.shape ≡ ok p.output_primary_bytes)

Counted-eq : (o o' : Output) → o ≡ o' → Counted o' → Counted o
Counted-eq o o' e h = rw e h

one_step :
    (padded : Result Output) (tensor : Option TensorView) (f : TensorView → Output → Outcome Output)
    (o' : Output)
    → (elim padded as (λ _. Option (Result Output)) [
      | err e ↦ some (err e)
      | ok q ↦ elim tensor as (λ _. Option (Result Output)) [ none ↦ none | some v ↦ f v q ]
    ])
      ≡ some (ok o')
    → (q : Output) × (v : TensorView) × (padded ≡ ok q) × (tensor ≡ some v) × (f v q ≡ some (ok o'))
one_step (err e) t f o' h = cc
one_step (ok q) none f o' h = cc
one_step (ok q) (some v) f o' h = (q, v, refl, refl, cc)

next_step :
    {A : Type 0} (r : Outcome A) (f : A → Outcome Output) (o' : Output)
    → (elim r as (λ _. Option (Result Output)) [
      | none ↦ none
      | some (err e) ↦ some (err e)
      | some (ok next) ↦ f next
    ])
      ≡ some (ok o')
    → (next : A) × (r ≡ some (ok next)) × (f next ≡ some (ok o'))
next_step none f o' h = cc
next_step (some (err e)) f o' h = cc
next_step (some (ok n)) f o' h = (n, refl, h)

header_step :
    (r : Result (List ℕ)) (f : List ℕ → Option (Result (List ℕ))) (out : List ℕ)
    → (elim r as (λ _. Option (Result (List ℕ))) [ err e ↦ some (err e) | ok x ↦ f x ])
      ≡ some (ok out)
    → (x : List ℕ) × (f x ≡ some (ok out))
header_step (err e) f out h = cc
header_step (ok x) f out h = (x, h)

module _ {F : Type 0} (quantiser : Quantiser F) (source : List ℕ)
    (keeps : KeepsLength quantiser) where
  pad-Counted :
      (start : ℕ) (p : PlannedTensor) (o o' : Output)
      → Counted o
      → pad quantiser source start p o ≡ ok o'
      → Counted o'
  unfolding pad
  pad-Counted start p o o' c h =
      let (offset, offset_ok, h1) =
        >>=-eq-ok (ok_or (checked_add start p.output_relative_offset) absolute_overflow) _ h in
      let (n, n_ok, h2) = >>=-eq-ok (ok_or (checked_sub offset o.position) not_monotonic) _ h1 in
      let sum = checked_sub-some offset o.position n (ok_or-eq-ok _ not_monotonic n n_ok) in
      Counted-eq o' _ (ok-injective h2) (
        omega
          (arith, c, sum, length-append o.written (replicate n 0), length-replicate {A = ℕ} n 0))

  copy_slot-Counted :
      (p : PlannedTensor) (v : TensorView) (o o' : Output)
      → Counted o
      → copy_slot quantiser source p v o ≡ ok o'
      → Counted o'
  unfolding copy_slot
  copy_slot-Counted p v o o' c h =
      let (slot, slot_ok, h1) = >>=-eq-ok (source_slice source v.offset p.source_slot_end) _ h in
      let (n, n_ok, h2) =
        >>=-eq-ok (ok_or (checked_add o.position (length slot)) position_overflow) _ h1 in
      let sum = (checked_add-some _ _ n (ok_or-eq-ok _ position_overflow n n_ok)).0 in
      Counted-eq o' _ (ok-injective h2) (omega (arith, c, sum, length-append o.written slot))

  write_suffix-Counted :
      (p : PlannedTensor) (v : TensorView) (rows : List ℕ) (o o' : Output)
      → length rows ≡ p.output_primary_bytes
      → Counted o
      → write_suffix quantiser source p v rows o ≡ ok o'
      → Counted o'
  unfolding write_suffix
  write_suffix-Counted p v rows o o' fit c h =
      let (n, n_ok, h2) =
        >>=-eq-ok (ok_or (checked_add o.position p.output_primary_bytes) position_overflow) _ h in
      let (end, end_ok, h3) =
        >>=-eq-ok (ok_or (checked_add v.offset v.byte_len) slot_end_overflow) _ h2 in
      let (suffix, suffix_ok, h4) = >>=-eq-ok (source_slice source end p.source_slot_end) _ h3 in
      let (m, m_ok, h5) =
        >>=-eq-ok (ok_or (checked_add n (length suffix)) position_overflow) _ h4 in
      let sum = (checked_add-some _ _ n (ok_or-eq-ok _ position_overflow n n_ok)).0 in
      let total = (checked_add-some _ _ m (ok_or-eq-ok _ position_overflow m m_ok)).0 in
      Counted-eq o' _ (ok-injective h5) (
        omega (
          arith,
          c,
          sum,
          total,
          fit,
          length-append o.written (rows ++ suffix),
          length-append rows suffix,
        ))

  write_tensor-Counted :
      (p : PlannedTensor) (v : TensorView) (action : TensorAction) (o o' : Output)
      → (action ≡ quantize_f16_to_q6_k
          → (row_elements : ℕ) × (rows : ℕ) × IsMatrix v row_elements rows
            × (q6k_expected_byte_len v.shape ≡ ok p.output_primary_bytes))
      → Counted o
      → write_tensor quantiser source p v action o ≡ some (ok o')
      → Counted o'
  unfolding write_tensor
  write_tensor-Counted p v copy o o' fit c h = copy_slot-Counted p v o o' c (some-injective h)
  write_tensor-Counted p v quantize_f16_to_q6_k o o' fit c h =
      let (rows, rows_ok, h1) =
        next_step (write_q6k_tensor quantiser source v)
          (λ rows. some (write_suffix quantiser source p v rows o)) o' h in
      let (row_elements, count, matrix, expected) = fit refl in
      write_suffix-Counted p v rows o o'
        (write_q6k_tensor-length quantiser source keeps v row_elements count p.output_primary_bytes
          rows matrix expected rows_ok)
        c (some-injective h1)

  write_one-Counted :
      (g : GgufFile) (p : PlannedTensor) (o o' : Output)
      → IsPlanned g p
      → Counted o
      → write_one quantiser source g p o ≡ some (ok o')
      → Counted o'
  unfolding write_one
  write_one-Counted g p o o' fit c h =
      let (q, v, pad_ok, at, wrote) =
        one_step (pad quantiser source g.data_section_start p o)
          (get_elem? g.tensors p.source_index) (λ v q. write_tensor quantiser source p v p.action q)
          o' h in
      write_tensor-Counted p v p.action q o' (λ quant. fit v quant at)
        (pad-Counted g.data_section_start p o q c pad_ok) wrote

  write_all-Counted :
      (g : GgufFile) (ps : List PlannedTensor) (o o' : Output)
      → All (IsPlanned g) ps
      → Counted o
      → write_all quantiser source g ps o ≡ some (ok o')
      → Counted o'
  unfolding write_all
  write_all-Counted g [] o o' fit c h = Counted-eq o' o (ok-injective {A = Output} (cc)) c
  write_all-Counted g (p ∷ ps) o o' fit c h =
      let (next, one_ok, rest) =
        next_step (write_one quantiser source g p o) (write_all quantiser source g ps) o' h in
      write_all-Counted g ps next o' fit.1 (write_one-Counted g p o next fit.0 c one_ok) rest

  finish_step :
      (plan : LinkPlan) (r : Option (Result Output)) (out : List ℕ)
      → finish quantiser source plan r ≡ some (ok out)
      → (o : Output) × (r ≡ some (ok o)) × (o.position ≡ plan.output_bytes) × (out ≡ o.written)
  unfolding finish
  finish_step plan none out h = cc
  finish_step plan (some (err e)) out h = cc
  finish_step plan (some (ok o)) out h = elim (Bool-cases (o.position == plan.output_bytes)) [
    | inl same ↦ (o, refl, ground arith, cc (rw same at h))
    | inr other ↦ cc (rw other at h)
  ]

  -- The output of a plan whose transformed tensors are matrices is as long as the plan says.
  length-written :
      (g : GgufFile) (plan : LinkPlan) (planned : List PlannedTensor) (out : List ℕ)
      → All (IsPlanned g) planned
      → write_artifact quantiser source g plan planned ≡ some (ok out)
      → length out ≡ plan.output_bytes
  unfolding write_artifact
  length-written g plan planned out fit h =
      let (header, h1) = header_step (patched_header source g planned) _ out h in
      let start : Output = record { written = header; position = length header } in
      let (o, o_ok, total, out_eq) =
        finish_step plan (write_all quantiser source g planned start) out h1 in
      ap length out_eq ∙ sym (write_all-Counted g planned start o fit refl o_ok) ∙ total

-- If a file is parsed, and planned for the tensor that validate_q6k_embedding accepts with the number of
-- bytes that it gives, and the quantiser of a row leaves the length of its buffer: what `write_artifact`
-- has written, when it succeeds, is as long as the plan says.
pub length-write_artifact :
    {F : Type 0} (quantiser : Quantiser F) (source : List ℕ) (g : GgufFile)
    (profile : ArtifactProfile) (transform : Transform) (embedding : TensorView) (plan : LinkPlan)
    (planned : List PlannedTensor) (out : List ℕ)
    → KeepsLength quantiser
    → parse source ≡ ok g
    → get_elem? g.tensors transform.source_index ≡ some embedding
    → validate_q6k_embedding quantiser embedding ≡ ok transform.output_bytes
    → build_plan profile (length source) g transform ≡ ok (plan, planned)
    → write_artifact quantiser source g plan planned ≡ some (ok out)
    → length out ≡ plan.output_bytes
length-write_artifact quantiser source g profile transform embedding plan planned out keeps parsed
      at accepted planned_ok =
    length-written quantiser source keeps g plan planned out (
      All-map planned
        (build_plan-Selects transform profile (length source) g plan planned planned_ok))
  where
    planned_one : (p : PlannedTensor) → IsSelected transform p → IsPlanned g p
    planned_one p selected v quant there =
        let (index, bytes) = selected quant in
        let same : embedding ≡ v =
          some-injective (sym at ∙ ap (get_elem? g.tensors) (sym index) ∙ there) in
        let (a, b, matrix, expected) =
          validate_q6k_embedding-IsMatrix quantiser source g p.source_index v transform.output_bytes
            parsed there (ap (validate_q6k_embedding quantiser) (sym same) ∙ accepted) in
        (a, b, matrix, expected ∙ sym (ap ok bytes))

    All-map : (ps : List PlannedTensor) → All (IsSelected transform) ps → All (IsPlanned g) ps
    All-map [] h = tt
    All-map (p ∷ ps) h = (planned_one p h.0, All-map ps h.1)
