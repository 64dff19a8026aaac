-- ===== src/Generation/Output.antt =====
-- What the loop with a sampler, of src/model/generate.rs, returns and reports.
use project_willamette.Prelude.{
  ℕ, zero, suc, ◌+◌, ◌%◌, ◌^◌, ◌≤◌, ◌<◌, ◌≡◌, refl, sym, ap, ◌∙◌, arith, Bool, true, false, ◌||◌,
  Option, some, List, [], ◌∷◌, ◌++◌, length, All, Bool-cases, inl, inr,
}
use mathlib.Core.List.{append_assoc, append-nil}
use native.Mathlib.Nat.{mod-eq_of_lt}
use project_willamette.Gguf.Result.{with_sampler}
use project_willamette.Tokenizer.Bpe.Merged.{some-injective}
use project_willamette.Generation.Run.{
  Run, Tick, pure, lift, tick, ◌>>=◌, Gives, pure-Gives, >>=-Gives,
}
use project_willamette.Generation.Budget.{check_prompt, check_prompt-ok}
use project_willamette.Sampling.State.{Floats, Sampler, contains_id, observe}
use project_willamette.Sampling.Sample.{sample}
use project_willamette.Sampling.Bounds.{sample-Drawn}
use project_willamette.Generation.Loops.{
  Model, GenerationResult, is_eos, advance, sampled_loop, observe_all,
  generate_with_cache_and_sampler_with_stats,
}
use project_willamette.Generation.Limits.{advance-position, advance-ticks}

-- The calls of the callback for ids accepted one after the other.
abbrev pub ticks_for : ℕ → ℕ → List ℕ → List Tick
ticks_for step position [] = []
ticks_for step position (id ∷ ids) =
    record { step = step; position = position; id = id } ∷ ticks_for (step + 1) (position + 1) ids

abbrev pub stops : Option ℕ → List ℕ → ℕ → Bool
stops eos stop_ids next = is_eos eos next || contains_id stop_ids next

module _ {F H C : Type 0} (f : Floats F) (model : Model F H C)
    (empty : f.less_eq (f.sum []) f.zero_f32 ≡ true) (eos : Option ℕ) (stop_ids : List ℕ)
    (max_new_tokens prompt_len : ℕ) where
  -- What a loop with `left` rounds to go gives.
  abbrev Emitted : ℕ → ℕ → Sampler F → List Tick → List ℕ × Sampler F → Type 0
  Emitted left step s ticks (ids, final) =
      (length ids ≤ left)
      × All (λ id. stops eos stop_ids id ≡ false) ids
      × (ticks ≡ ticks_for step (prompt_len + step) ids)
      × (final.history ≡ s.history ++ ids)

  same_position :
      (step next position : ℕ) (ids : List ℕ)
      → position ≡ prompt_len + step
      → ◌≡◌ {A = List Tick}
          (record { step = step; position = position; id = next }
            ∷ ticks_for (step + 1) (prompt_len + (step + 1)) ids)
          (ticks_for step (prompt_len + step) (next ∷ ids))
  same_position step next position ids at =
      ap
        (λ p.
          record { step = step; position = p; id = next }
          ∷ ticks_for (step + 1) (prompt_len + (step + 1)) ids)
        at
      ∙ ap
          (λ p.
            record { step = step; position = prompt_len + step; id = next }
            ∷ ticks_for (step + 1) p ids)
          {x = prompt_len + (step + 1)} {y = prompt_len + step + 1} (omega arith)

  -- A round that accepts an id, before the rounds after it.
  accepted-Emitted :
      (left step next : ℕ) (s s' : Sampler F) (before : List Tick) (position : ℕ)
      (run : Run (List ℕ × Sampler F))
      → position ≡ prompt_len + step
      → before ≡ []
      → s'.history ≡ s.history
      → stops eos stop_ids next ≡ false
      → Gives (Emitted left (step + 1) (observe s' next)) run
      → Gives
          (λ later r.
            Emitted
              (suc left)
              step
              s
              (record { step = step; position = position; id = next } ∷ (before ++ later))
              r)
          (run >>= λ r. pure (next ∷ r.0, r.1))
  unfolding observe
  accepted-Emitted left step next s s' before position run at silent kept go emits =
      >>=-Gives _ run (λ r. pure (next ∷ r.0, r.1))
        (λ (ids, final) run_ok.
          let (short, none_stops, reported, recorded) =
            emits run.0 (ids, final) (ap (λ o. (run.0, o)) run_ok) in
          pure-Gives
            (λ later r.
              Emitted (suc left) step s
                (record { step = step; position = position; id = next }
                  ∷ (before ++ (run.0 ++ later)))
                r)
            (next ∷ ids, final)
            (
              omega (arith, short),
              (go, none_stops),
              ap
                    (λ l.
                      record { step = step; position = position; id = next } ∷ (l ++ (run.0 ++ [])))
                    silent
                  ∙ ap (λ l. record { step = step; position = position; id = next } ∷ l)
                      (append-nil run.0 ∙ reported)
                  ∙ same_position step next position ids at,
              recorded ∙ append_assoc s'.history (next ∷ []) ids ∙ ap (λ h. h ++ next ∷ ids) kept,
            ))

  sampled_loop-Emitted :
      (left step : ℕ) (s : Sampler F) (state : C × H × ℕ)
      → step + left ≡ max_new_tokens
      → prompt_len + max_new_tokens < 2 ^ 32
      → (0 < left → state.2 ≡ prompt_len + step)
      → Gives
          (Emitted left step s)
          (sampled_loop f model eos stop_ids max_new_tokens left step s state)
  unfolding sampled_loop observe
  sampled_loop-Emitted zero step s (cache, hidden, next_pos) total word at =
      pure-Gives (Emitted zero step s) ([], s) (omega arith, tt, refl, sym (append-nil s.history))
  sampled_loop-Emitted (suc left) step s (cache, hidden, next_pos) total word at =
      >>=-Gives (Emitted (suc left) step s) (lift (model.logits hidden)) _ (λ logits _.
        >>=-Gives (Emitted (suc left) step s) (lift (sample f s logits)) _ (λ (next, s') chosen.
          let (_, _, kept) = sample-Drawn f s logits (next, s') empty chosen in
          elim (Bool-cases (stops eos stop_ids next)) [
            | inl stop ↦ rw stop (
                pure-Gives (Emitted (suc left) step s) ([], s')
                  (omega arith, tt, refl, kept ∙ sym (append-nil s.history)))
            | inr more ↦ rw more (
                >>=-Gives (Emitted (suc left) step s)
                  (tick (record { step = step; position = next_pos; id = next })) _
                  (λ _ _.
                    >>=-Gives
                      (λ later r.
                        Emitted (suc left) step s
                          (record { step = step; position = next_pos; id = next } ∷ later) r)
                      (advance f model max_new_tokens step next (cache, hidden, next_pos)) _
                      (λ state state_ok.
                        accepted-Emitted left step next s s'
                          (advance f model max_new_tokens step next (cache, hidden, next_pos)).0
                          next_pos
                          (sampled_loop f model eos stop_ids max_new_tokens left (step + 1)
                            (observe s' next) state)
                          (at (omega arith))
                          (advance-ticks f model max_new_tokens step next (cache, hidden, next_pos))
                          kept more
                          (sampled_loop-Emitted left (step + 1) (observe s' next) state
                            (omega arith) word
                            (λ later. omega (
                              arith,
                              at (omega arith),
                              advance-position f model max_new_tokens step next cache hidden
                                  next_pos state (omega arith) (omega (arith, at (omega arith)))
                                  state_ok,
                            ))))))
          ]))

observe_all-history :
    {F : Type 0} (s : Sampler F) (ids : List ℕ) → (observe_all s ids).history ≡ s.history ++ ids
unfolding observe_all observe
observe_all-history s [] = sym (append-nil s.history)
observe_all-history s (id ∷ ids) =
    observe_all-history (observe s id) ids ∙ append_assoc s.history (id ∷ []) ids

-- What a call that returns has come to, with the callback's calls before it.
abbrev pub IsReported :
    {F : Type 0}
    → Option ℕ
    → List ℕ
    → List ℕ
    → ℕ
    → Sampler F
    → List Tick
    → GenerationResult × Sampler F
    → Type 0
IsReported eos stop_ids prompt_ids max_new_tokens s ticks (result, final) =
    (length result.generated_tokens ≤ max_new_tokens)
    × All (λ id. stops eos stop_ids id ≡ false) result.generated_tokens
    × (ticks ≡ ticks_for 0 (length prompt_ids) result.generated_tokens)
    × (result.prefill_tokens ≡ length prompt_ids)
    × (result.decode_tokens ≡ length result.generated_tokens)
    × (final.history ≡ (s.history ++ prompt_ids) ++ result.generated_tokens)

-- For a context length below 2 ^ 32 - 1 and a sum of no values that is at most zero: where
-- `generate_with_cache_and_sampler_with_stats` returns, it returns at most as many ids as it was asked for,
-- none of them the end of the sequence or a stop id; it called the callback once for each, in order, with
-- the steps from 0 and the positions from the length of the prompt; its counts are those of the prompt and
-- of the ids; and the sampler has recorded the prompt and then the ids.
pub generate-IsReported :
    {F H C : Type 0} (f : Floats F) (model : Model F H C) (prompt_ids : List ℕ) (max_new_tokens : ℕ)
    (eos : Option ℕ) (stop_ids : List ℕ) (max_seq_len : ℕ) (s : Sampler F)
    → f.less_eq (f.sum []) f.zero_f32 ≡ true
    → model.context_length + 1 < 2 ^ 32
    → Gives (IsReported eos stop_ids prompt_ids max_new_tokens s) (
        generate_with_cache_and_sampler_with_stats f model prompt_ids max_new_tokens eos stop_ids
          max_seq_len s)
unfolding generate_with_cache_and_sampler_with_stats
generate-IsReported {F} f model prompt_ids max_new_tokens eos stop_ids max_seq_len s empty word =
    let P : List Tick → GenerationResult × Sampler F → Type 0 =
      IsReported eos stop_ids prompt_ids max_new_tokens s in
    >>=-Gives P
      (lift (
        some (
          check_prompt with_sampler model.vocab_size model.context_length prompt_ids max_new_tokens
            (some max_seq_len))))
      _
      (λ _ checked.
        let (_, fits, within) =
          check_prompt-ok with_sampler model.vocab_size model.context_length prompt_ids
            max_new_tokens max_seq_len (omega arith) (some-injective checked) in
        >>=-Gives P (lift (model.new_cache max_seq_len)) _ (λ cache _.
          >>=-Gives P (lift (model.prefill cache prompt_ids)) _ (λ (cache', hidden) _.
            let run =
              sampled_loop f model eos stop_ids max_new_tokens max_new_tokens 0
                (observe_all s prompt_ids) (cache', hidden, length prompt_ids % 2 ^ 32) in
            >>=-Gives P run _ (λ (ids, final) run_ok.
              let (short, none_stops, reported, recorded) =
                sampled_loop-Emitted f model empty eos stop_ids max_new_tokens (length prompt_ids)
                  max_new_tokens 0 (observe_all s prompt_ids)
                  (cache', hidden, length prompt_ids % 2 ^ 32) (omega arith)
                  (omega (arith, fits, within))
                  (λ _.
                    mod-eq_of_lt {n = length prompt_ids} {m = 2 ^ 32} (omega (arith, fits, within))
                    ∙ omega arith)
                  run.0 (ids, final) (ap (λ o. (run.0, o)) run_ok) in
              pure-Gives (λ later r. P (run.0 ++ later) r) _
                (
                  short,
                  none_stops,
                  append-nil run.0
                      ∙ reported
                      ∙ ap (λ p. ticks_for 0 p ids) {x = length prompt_ids + 0}
                          {y = length prompt_ids} (omega arith),
                  refl,
                  refl,
                  recorded ∙ ap (λ h. h ++ ids) (observe_all-history s prompt_ids),
                )))))
