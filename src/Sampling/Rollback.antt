-- ===== src/Sampling/Rollback.antt =====
-- `checkpoint` and `rollback` of src/model/sampler.rs, with any use of the sampler between them.
use project_willamette.Prelude.{
  ℕ, ◌≡◌, refl, sym, ap, ◌∙◌, true, some, List, [], ◌∷◌, ◌++◌, length, take, take_append,
}
use mathlib.Core.List.{append_assoc, append-nil}
use project_willamette.Gguf.Result.{ok}
use project_willamette.Sampling.State.{Floats, Sampler, observe, checkpoint, rollback}
use project_willamette.Sampling.Sample.{sample}
use project_willamette.Sampling.Bounds.{sample-Drawn}

-- A sampler is used to record an id, or to choose one.
pub data Used {F : Type 0} (f : Floats F) (s : Sampler F) : Sampler F → Type 0 where
  unused : Used f s s
  observed : {t : Sampler F} (id : ℕ) → Used f s t → Used f s (observe t id)
  sampled :
      {t : Sampler F} (logits : List F) (o : ℕ × Sampler F)
      → sample f t logits ≡ some (ok o)
      → Used f s t
      → Used f s o.1

module _ {F : Type 0} (f : Floats F) (empty : f.less_eq (f.sum []) f.zero_f32 ≡ true) where
  -- Use only lengthens the history and keeps the parameters.
  abbrev Longer : Sampler F → Sampler F → Type 0
  Longer s t = (more : List ℕ) × (t.history ≡ s.history ++ more) × (t.params ≡ s.params)

  Used-Longer : {s t : Sampler F} → Used f s t → Longer s t
  unfolding observe
  Used-Longer {s} unused = ([], sym (append-nil s.history), refl)
  Used-Longer {s} (observed id used) =
      let (more, kept, params) = Used-Longer used in
      (more ++ id ∷ [], ap (λ h. h ++ id ∷ []) kept ∙ append_assoc s.history more (id ∷ []), params)
  Used-Longer {s} (sampled {t} logits o chosen used) =
      let (more, kept, params) = Used-Longer used in
      let (_, params', history') = sample-Drawn f t logits o empty chosen in
      (more, history' ∙ kept, params' ∙ params)

-- Whatever ids a sampler has recorded and chosen since a checkpoint, `rollback` to it gives the sampler
-- of the checkpoint back: its parameters, random numbers and history. The sum of no values is assumed to be at
-- most zero.
pub rollback-checkpoint :
    {F : Type 0} (f : Floats F) {s t : Sampler F}
    → f.less_eq (f.sum []) f.zero_f32 ≡ true
    → Used f s t
    → rollback t (checkpoint s) ≡ s
unfolding rollback checkpoint
rollback-checkpoint f {s} {t} empty used =
    let (more, kept, params) = Used-Longer f empty used in
    let history : take (length s.history) t.history ≡ s.history =
      ap (take (length s.history)) kept ∙ take_append s.history more in
    λ i. record { params = params i; rng = s.rng; history = history i }
