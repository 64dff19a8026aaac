-- ===== src/Gguf/Linker/Tiled.antt =====
-- That the slots which `build_plan` of src/gguf/linker.rs lays out tile the data section.
use project_willamette.Prelude.{
  ℕ, ◌+◌, ◌-◌, ◌%◌, ◌≤◌, ◌<◌, ◌≡◌, sym, ap, ◌∙◌, arith, false, inl, inr, List, [], ◌∷◌, ◌==◌,
  checked_add, checked_sub, checked_add-some, checked_sub-some, Bool-cases,
}
use mathlib.Core.Path.{subst}
use native.Mathlib.Nat.{mod-lt, mod-add-mod, mod_self, mod-eq_of_lt}
use project_willamette.Gguf.Result.{
  ok, ok_or, >>=-eq-ok, ok_or-eq-ok, slot_end_overflow, slot_underflow, align_overflow,
  previous_underflow, slot_overflow, running_overflow, absolute_overflow, artifact_overflow,
}
use project_willamette.Gguf.Views.{TensorView, GgufFile}
use project_willamette.Gguf.Views.Checked.{ok-injective}
use project_willamette.Gguf.Linker.{
  ArtifactProfile, TensorPlan, LinkPlan, PlannedTensor, Transform, PlanState, align_offset,
  physical_order, close_previous, selected, add_entries, plan_one, next_start, plan_loop, reverse,
  build_plan,
}

-- The slot of the newest tensor ends at `end`, where the next one starts; each is aligned, starts
-- where the one before it ends, and has room for the new bytes and what followed the old ones.
abbrev pub Tiled : ℕ → ℕ → List TensorPlan → ℕ → Type 0
Tiled start alignment [] end = end ≡ start
Tiled start alignment (t ∷ ts) end =
    (t.output_offset + t.output_slot_bytes ≡ end)
    × ((t.output_offset - start) % alignment ≡ 0)
    × (start ≤ t.output_offset)
    × (t.output_primary_bytes + (t.source_slot_bytes - t.source_primary_bytes)
        ≤ t.output_slot_bytes)
    × Tiled start alignment ts t.output_offset

nonzero : (r : ℕ) → (r == 0) ≡ false → 0 < r
nonzero r h = ground arith

up_to_multiple : (n a : ℕ) → n % a < a → (n + (a - n % a)) % a ≡ 0
up_to_multiple n a small =
    sym (mod-add-mod n a (a - n % a))
    ∙ ap (λ x. x % a) {x = n % a + (a - n % a)} {y = a} (omega (arith, small))
    ∙ mod_self a

-- `align_offset` goes up to the next multiple.
align_offset_lem :
    (offset alignment aligned : ℕ)
    → 0 < alignment
    → align_offset offset alignment ≡ ok aligned
    → (offset ≤ aligned) × (aligned < offset + alignment) × (aligned % alignment ≡ 0)
unfolding align_offset
align_offset_lem offset alignment aligned pos h = elim (Bool-cases (offset % alignment == 0)) [
  | inl zero_rem ↦
      let same : aligned ≡ offset = ok-injective (rw zero_rem at h) in
      (omega (arith, same), omega (arith, same), ap (λ a. a % alignment) same ∙ ground arith)
  | inr rem ↦
      let sum =
        checked_add-some offset (alignment - offset % alignment) aligned
          (ok_or-eq-ok _ align_overflow aligned (rw rem at h)) in
      let small = mod-lt offset pos in
      (
        omega (arith, sum.0),
        omega (arith, sum.0, small, nonzero (offset % alignment) rem),
        ap (λ a. a % alignment) sum.0 ∙ up_to_multiple offset alignment small,
      )
]

starts_at_zero :
    (running alignment relative : ℕ)
    → relative < running + alignment
    → relative % alignment ≡ 0
    → running ≡ 0
    → relative ≡ 0
starts_at_zero running alignment relative within aligned zero_run =
    sym (mod-eq_of_lt (omega (arith, within, zero_run))) ∙ aligned

close_previous-Tiled :
    (start alignment running relative : ℕ) (plans closed : List TensorPlan)
    → close_previous start relative plans ≡ ok closed
    → (running ≡ 0 → relative ≡ 0)
    → running ≤ relative
    → Tiled start alignment plans (start + running)
    → Tiled start alignment closed (start + relative)
unfolding close_previous
close_previous-Tiled start alignment running relative [] closed h zero_case le t =
    let none_left : closed ≡ [] = ok-injective h in
    rw none_left (omega (arith, zero_case (omega (arith, t))))
close_previous-Tiled start alignment running relative (p ∷ ps) closed h zero_case le t =
    let (previous, previous_ok, h1) =
      >>=-eq-ok (ok_or (checked_sub p.output_offset start) previous_underflow) _ h in
    let (slot, slot_ok, h2) =
      >>=-eq-ok (ok_or (checked_sub relative previous) previous_underflow) _ h1 in
    let at =
      checked_sub-some p.output_offset start previous
        (ok_or-eq-ok _ previous_underflow previous previous_ok) in
    let size =
      checked_sub-some relative previous slot (ok_or-eq-ok _ previous_underflow slot slot_ok) in
    let (ends, aligned, above, fits, rest) = t in
    rw (ok-injective h2)
      (omega (arith, at, size), aligned, above, omega (arith, at, size, ends, fits), rest)

entries-Tiled :
    (start alignment : ℕ) (transform : Transform) (index : ℕ) (v : TensorView)
    (slot_end primary_end suffix relative slot running offset : ℕ) (closed : List TensorPlan)
    (state : PlanState)
    → primary_end ≡ v.offset + v.byte_len
    → suffix + primary_end ≡ slot_end
    → relative % alignment ≡ 0
    → slot ≡ (selected transform index v).2 + suffix
    → running ≡ relative + slot
    → offset ≡ start + relative
    → Tiled start alignment closed (start + relative)
    → Tiled start alignment
        (add_entries transform index v slot_end relative offset slot running closed
          state).tensor_plans
        (start
          + (add_entries transform index v slot_end relative offset slot running closed
              state).running)
unfolding add_entries
entries-Tiled start alignment transform index v slot_end primary_end suffix relative slot running
      offset closed state primary_eq suffix_eq aligned slot_eq running_eq offset_eq t =
    let back : offset - start ≡ relative = omega (arith, offset_eq) in
    (
      omega (arith, running_eq, offset_eq),
      ap (λ r. r % alignment) back ∙ aligned,
      omega (arith, offset_eq),
      omega (arith, primary_eq, suffix_eq, slot_eq),
      subst (Tiled start alignment closed) (sym offset_eq) t,
    )

-- What one round adds.
plan_one-Tiled :
    (start alignment : ℕ) (transform : Transform) (index : ℕ) (v : TensorView) (slot_end : ℕ)
    (state state' : PlanState)
    → 0 < alignment
    → plan_one start alignment transform index v slot_end state ≡ ok state'
    → Tiled start alignment state.tensor_plans (start + state.running)
    → Tiled start alignment state'.tensor_plans (start + state'.running)
unfolding plan_one
plan_one-Tiled start alignment transform index v slot_end state state' pos h t =
    let (primary_end, primary_ok, h1) =
      >>=-eq-ok (ok_or (checked_add v.offset v.byte_len) slot_end_overflow) _ h in
    let (suffix, suffix_ok, h2) =
      >>=-eq-ok (ok_or (checked_sub slot_end primary_end) slot_underflow) _ h1 in
    let (relative, relative_ok, h3) = >>=-eq-ok (align_offset state.running alignment) _ h2 in
    let (plans, plans_ok, h4) = >>=-eq-ok (close_previous start relative state.tensor_plans) _ h3 in
    let (slot, slot_ok, h5) =
      >>=-eq-ok (ok_or (checked_add (selected transform index v).2 suffix) slot_overflow) _ h4 in
    let (running, running_ok, h6) =
      >>=-eq-ok (ok_or (checked_add relative slot) running_overflow) _ h5 in
    let (offset, offset_ok, h7) =
      >>=-eq-ok (ok_or (checked_add start relative) absolute_overflow) _ h6 in
    let (up, within, aligned) = align_offset_lem state.running alignment relative pos relative_ok in
    let closed =
      close_previous-Tiled start alignment state.running relative state.tensor_plans plans plans_ok
        (λ zero_run. starts_at_zero state.running alignment relative within aligned zero_run) up
        t in
    subst (λ (s : PlanState). Tiled start alignment s.tensor_plans (start + s.running))
      (sym (ok-injective h7))
      (entries-Tiled start alignment transform index v slot_end primary_end suffix relative slot
        running offset plans state
        (checked_add-some _ _ _ (ok_or-eq-ok _ slot_end_overflow _ primary_ok)).0
        (checked_sub-some _ _ _ (ok_or-eq-ok _ slot_underflow _ suffix_ok)) aligned
        (checked_add-some _ _ _ (ok_or-eq-ok _ slot_overflow _ slot_ok)).0
        (checked_add-some _ _ _ (ok_or-eq-ok _ running_overflow _ running_ok)).0
        (checked_add-some _ _ _ (ok_or-eq-ok _ absolute_overflow _ offset_ok)).0 closed)

plan_loop-Tiled :
    (source_len start alignment : ℕ) (transform : Transform) (vs : List (ℕ × TensorView))
    (state state' : PlanState)
    → 0 < alignment
    → plan_loop source_len start alignment transform vs state ≡ ok state'
    → Tiled start alignment state.tensor_plans (start + state.running)
    → Tiled start alignment state'.tensor_plans (start + state'.running)
unfolding plan_loop
plan_loop-Tiled source_len start alignment transform [] state state' pos h t =
    subst (λ (s : PlanState). Tiled start alignment s.tensor_plans (start + s.running))
      (sym (ok-injective h)) t
plan_loop-Tiled source_len start alignment transform ((i, v) ∷ rest) state state' pos h t =
    let (mid, mid_ok, h1) =
      >>=-eq-ok (plan_one start alignment transform i v (next_start source_len rest) state) _ h in
    plan_loop-Tiled source_len start alignment transform rest mid state' pos h1 (
      plan_one-Tiled start alignment transform i v (next_start source_len rest) state mid pos mid_ok
        t)

-- If the alignment is positive and a plan is built, its slots, the last one first, are aligned, have
-- room for what is written, and tile the space from the start of the data section to the end of
-- the output.
pub build_plan-Tiled :
    (profile : ArtifactProfile) (source_len : ℕ) (g : GgufFile) (transform : Transform)
    (plan : LinkPlan) (planned : List PlannedTensor)
    → 0 < g.alignment
    → build_plan profile source_len g transform ≡ ok (plan, planned)
    → (ts : List TensorPlan) × (plan.tensors ≡ reverse ts)
      × Tiled g.data_section_start g.alignment ts plan.output_bytes
unfolding build_plan
build_plan-Tiled profile source_len g transform plan planned pos h =
    let initial : PlanState = record {
      running = 0;
      planned = [];
      tensor_plans = [];
      changes = [];
    } in
    let (state, state_ok, h1) =
      >>=-eq-ok
        (plan_loop source_len g.data_section_start g.alignment transform
          (physical_order 0 g.tensors) initial)
        _ h in
    let (total, total_ok, h2) =
      >>=-eq-ok (ok_or (checked_add g.data_section_start state.running) artifact_overflow) _ h1 in
    let made = ok-injective h2 in
    let total_eq = (checked_add-some _ _ _ (ok_or-eq-ok _ artifact_overflow _ total_ok)).0 in
    (
      state.tensor_plans,
      ap (λ (r : LinkPlan × List PlannedTensor). r.0.tensors) made,
      subst (Tiled g.data_section_start g.alignment state.tensor_plans)
          (sym (ap (λ (r : LinkPlan × List PlannedTensor). r.0.output_bytes) made ∙ total_eq))
          (plan_loop-Tiled source_len g.data_section_start g.alignment transform
            (physical_order 0 g.tensors) initial state pos state_ok (omega arith)),
    )
