-- ===== src/Sampling/Sample.antt =====
-- src/model/sampler.rs: `multinomial` and `sample`.
use project_willamette.Prelude.{
  ℕ, ◌+◌, ◌-◌, ◌%◌, ◌^◌, not, ◌||◌, Option, none, some, List, [], ◌∷◌, length, if◌then◌else◌, ◌>>=◌,
}
use project_willamette.Gguf.Result.{Result, ok, err, gguf_parse, empty_logits, bad_total, sampling}
use project_willamette.Gguf.Outcome.{Outcome}
use project_willamette.Sampling.State.{
  Floats, Sampler, is_greedy, next_u64, next_unit, apply_repetition_penalty, apply_temperature,
}
use project_willamette.Sampling.Filters.{argmax, apply_top_k, apply_top_p, softmax_to_probs}

module _ {F : Type 0} (f : Floats F) where
  -- The first index at which the running sum reaches `r`.
  unfoldable pub reached_at : F → F → ℕ → List F → Option ℕ
  reached_at r acc i [] = none
  reached_at r acc i (p ∷ ps) =
      let later = reached_at r (f.add acc p) (i + 1) ps in
      if f.less_eq r (f.add acc p) then some (i % 2 ^ 32) else later

  -- `multinomial`, with the sampler it leaves. The probabilities are not empty where it subtracts 1
  -- from their number.
  unfoldable pub multinomial : Sampler F → List F → Result (ℕ × Sampler F)
  multinomial s probs =
      let total = f.sum probs in
      if f.less_eq total f.zero_f32 || not (f.is_finite total)
      then err (gguf_parse bad_total)
      else (let s' = record s { rng = next_u64 s.rng } in
          elim (reached_at (f.mul (next_unit f s) total) f.zero_f32 0 probs) [
            | some i ↦ ok (i, s')
            | none ↦ ok ((length probs - 1) % 2 ^ 32, s')
          ])

  unfoldable pub filter_k : Option ℕ → List F → Option (List F)
  filter_k none buf = some buf
  filter_k (some k) buf = apply_top_k f k buf

  unfoldable pub filter_p : Option F → List F → Option (List F)
  filter_p none probs = some probs
  filter_p (some p) probs = apply_top_p f p probs

  unfoldable pub sample : Sampler F → List F → Outcome (ℕ × Sampler F)
  sample s logits =
      if is_greedy f s.params
      then elim (argmax f logits) [
        | none ↦ some (err (gguf_parse (empty_logits sampling)))
        | some id ↦ some (ok (id, s))
      ]
      else (do
        kept ← filter_k s.params.top_k (apply_temperature f s (apply_repetition_penalty f s logits))
        probs ← filter_p s.params.top_p (softmax_to_probs f kept)
        some (multinomial s probs))
