-- ===== src/Gguf/Linker/Selected.antt =====
-- Which tensors a plan of src/gguf/linker.rs transforms, and to how many bytes.
use project_willamette.Prelude.{
  ℕ, ◌≡◌, refl, sym, ap, List, [], ◌∷◌, All, All-append, Bool-cases, inl, inr, ◌==◌, ==_iff,
  checked_add, checked_sub,
}
use project_willamette.Gguf.Result.{
  ok, ok_or, Gives, >>=-Gives, >>=-eq-ok, ok-Gives, slot_end_overflow, slot_underflow,
  slot_overflow, running_overflow, absolute_overflow, artifact_overflow,
}
use project_willamette.Gguf.Views.{TensorView, GgufFile}
use project_willamette.Gguf.Views.Checked.{ok-injective}
use mathlib.Core.Path.{subst}
use project_willamette.Gguf.Linker.{
  ArtifactProfile, Transform, LinkPlan, PlannedTensor, PlanState, quantize_f16_to_q6_k, selected,
  add_entries, align_offset, close_previous, plan_one, plan_loop, next_start, build_plan, reverse,
  physical_order,
}

-- A tensor that is transformed is the one of the transform, with its number of bytes.
abbrev pub IsSelected : Transform → PlannedTensor → Type 0
IsSelected transform p =
    p.action ≡ quantize_f16_to_q6_k
    → (p.source_index ≡ transform.source_index) × (p.output_primary_bytes ≡ transform.output_bytes)

All-reverse : (P : PlannedTensor → Type 0) (ps : List PlannedTensor) → All P ps → All P (reverse ps)
All-reverse P [] h = tt
All-reverse P (p ∷ ps) h = All-append P (reverse ps) (p ∷ []) (All-reverse P ps h.1) (h.0, tt)

module _ (transform : Transform) where
  abbrev Selects : PlanState → Type 0
  Selects state = All (IsSelected transform) state.planned

  selected-IsSelected :
      (index : ℕ) (tensor : TensorView)
      → (selected transform index tensor).0 ≡ quantize_f16_to_q6_k
      → (index ≡ transform.source_index)
        × ((selected transform index tensor).2 ≡ transform.output_bytes)
  unfolding selected
  selected-IsSelected index tensor h = elim (Bool-cases (index == transform.source_index)) [
    | inl same ↦ ((==_iff _ _).0 same, rw same refl)
    | inr other ↦ cc (rw other at h)
  ]

  plan_one-Selects :
      (start alignment index : ℕ) (tensor : TensorView) (slot_end : ℕ) (state : PlanState)
      → Selects state
      → Gives Selects (plan_one start alignment transform index tensor slot_end state)
  unfolding plan_one add_entries
  plan_one-Selects start alignment index tensor slot_end state h =
      >>=-Gives Selects (ok_or (checked_add tensor.offset tensor.byte_len) slot_end_overflow) _
        λ primary_end _.
          >>=-Gives Selects (ok_or (checked_sub slot_end primary_end) slot_underflow) _ λ suffix _.
            >>=-Gives Selects (align_offset state.running alignment) _ λ relative _.
              >>=-Gives Selects (close_previous start relative state.tensor_plans) _ λ plans _.
                >>=-Gives Selects
                  (ok_or (checked_add (selected transform index tensor).2 suffix) slot_overflow) _
                  λ slot _.
                    >>=-Gives Selects (ok_or (checked_add relative slot) running_overflow) _
                      λ running _.
                        >>=-Gives Selects (ok_or (checked_add start relative) absolute_overflow) _
                          λ offset _. ok-Gives Selects _ (selected-IsSelected index tensor, h)

  plan_loop-Selects :
      (source_len start alignment : ℕ) (tensors : List (ℕ × TensorView)) (state : PlanState)
      → Selects state
      → Gives Selects (plan_loop source_len start alignment transform tensors state)
  unfolding plan_loop
  plan_loop-Selects source_len start alignment [] state h = ok-Gives Selects state h
  plan_loop-Selects source_len start alignment ((i, v) ∷ rest) state h =
      >>=-Gives Selects (plan_one start alignment transform i v (next_start source_len rest) state)
        _
        λ next next_ok.
          plan_loop-Selects source_len start alignment rest next
            (plan_one-Selects start alignment i v (next_start source_len rest) state h next next_ok)

  pub build_plan-Selects :
      (profile : ArtifactProfile) (source_len : ℕ) (g : GgufFile) (plan : LinkPlan)
      (planned : List PlannedTensor)
      → build_plan profile source_len g transform ≡ ok (plan, planned)
      → All (IsSelected transform) planned
  unfolding build_plan
  build_plan-Selects profile source_len g plan planned h =
      let initial : PlanState = record {
        running = 0;
        planned = [];
        tensor_plans = [];
        changes = [];
      } in
      let (state, state_ok, h1) =
        >>=-eq-ok
          (plan_loop source_len g.data_section_start g.alignment transform
            (physical_order 0 g.tensors) initial)
          _ h in
      let (n, _, h2) =
        >>=-eq-ok (ok_or (checked_add g.data_section_start state.running) artifact_overflow) _ h1 in
      let same : planned ≡ reverse state.planned = ap (λ r. r.1) (ok-injective h2) in
      subst (All (IsSelected transform)) (sym same) (
        All-reverse (IsSelected transform) state.planned (
          plan_loop-Selects source_len g.data_section_start g.alignment (physical_order 0 g.tensors)
            initial tt state state_ok))
