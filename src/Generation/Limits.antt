-- ===== src/Generation/Limits.antt =====
-- What the loop with a sampler, of src/model/generate.rs, asks of the model.
use project_willamette.Prelude.{
  leb, le→leb, All, ℕ, zero, suc, ◌+◌, ◌-◌, ◌%◌, ◌^◌, ◌≤◌, ◌<◌, ◌≡◌, refl, sym, ap, ◌∙◌, arith,
  Bool, true, ◌&&◌, ◌||◌, Option, none, some, List, [], ◌∷◌, length, ltb, ltb→lt, lt→ltb,
  if◌then◌else◌, if-cases, Bool-cases, inl, inr,
}
use native.Mathlib.Nat.{mod-eq_of_lt}
use project_willamette.Gguf.Result.{ok, err, with_sampler}
use project_willamette.Gguf.Outcome.{Outcome}
use project_willamette.Tokenizer.Bpe.Merged.{some-injective}
use project_willamette.Generation.Run.{Run, pure, lift, tick, ◌>>=◌, >>=-cong_ok}
use project_willamette.Generation.Budget.{check_prompt, check_prompt-ok}
use project_willamette.Sampling.State.{Floats, Sampler, contains_id, observe}
use project_willamette.Sampling.Sample.{sample}
use project_willamette.Sampling.Bounds.{sample-Drawn}
use project_willamette.Generation.Loops.{
  Model, is_eos, advance, sampled_loop, observe_all, generate_with_cache_and_sampler_with_stats,
}

abbrev all_below : ℕ → List ℕ → Bool
all_below n [] = true
all_below n (id ∷ ids) = ltb id n && all_below n ids

all_below-true : (n : ℕ) (ids : List ℕ) → All (λ id. id < n) ids → all_below n ids ≡ true
all_below-true n [] h = refl
all_below-true n (id ∷ ids) h = rw (lt→ltb id n h.0, all_below-true n ids h.1) refl

-- The model that panics where it is asked for a position from `limit` on, or a token out of the
-- vocabulary, in a prompt or after it.
abbrev pub guarded : {F H C : Type 0} → ℕ → Model F H C → Model F H C
guarded limit model = record model {
  prefill = λ cache ids.
      if leb (length ids) limit && all_below model.vocab_size ids
      then model.prefill cache ids
      else none;
  forward = λ cache id position.
      if ltb position limit && ltb id model.vocab_size
      then model.forward cache id position
      else none;
}

module _ {F H C : Type 0} (f : Floats F) (model : Model F H C) where
  pub advance-ticks :
      (max_new_tokens step next : ℕ) (state : C × H × ℕ)
      → (advance f model max_new_tokens step next state).0 ≡ []
  unfolding advance
  advance-ticks max_new_tokens step next (cache, hidden, next_pos) =
      if-cases (λ (run : Run (C × H × ℕ)). run.0 ≡ []) (ltb (step + 1) max_new_tokens)
        (λ _. silent (model.forward cache next next_pos)) (λ _. refl)
    where
      silent :
          (o : Outcome (C × H))
          → (◌>>=◌ {B = C × H × ℕ}
              (lift o)
              (λ (r : C × H). pure (r.0, r.1, (next_pos + 1) % 2 ^ 32))).0
            ≡ []
      silent none = refl
      silent (some (err e)) = refl
      silent (some (ok a)) = refl

  -- The position after a token, where another follows.
  pub advance-position :
      (max_new_tokens step next : ℕ) (cache : C) (hidden : H) (next_pos : ℕ) (state : C × H × ℕ)
      → step + 1 < max_new_tokens
      → next_pos + 1 < 2 ^ 32
      → (advance f model max_new_tokens step next (cache, hidden, next_pos)).1 ≡ some (ok state)
      → state.2 ≡ next_pos + 1
  unfolding advance
  advance-position max_new_tokens step next cache hidden next_pos state more fits h =
      forwarded (model.forward cache next next_pos)
        (rw (advance, lt→ltb (step + 1) max_new_tokens more) at h)
    where
      forwarded :
          (o : Outcome (C × H))
          → (lift o >>= λ (r : C × H). pure (r.0, r.1, (next_pos + 1) % 2 ^ 32)).1 ≡ some (ok state)
          → state.2 ≡ next_pos + 1
      forwarded none e = cc
      forwarded (some (err x)) e = cc
      forwarded (some (ok (c, h'))) e =
          sym (ap (λ (o : C × H × ℕ). o.2) (ok_inj (some-injective e)))
          ∙ mod-eq_of_lt {n = next_pos + 1} {m = 2 ^ 32} fits
        where
          ok_inj : {x y : C × H × ℕ} → ok x ≡ ok y → x ≡ y
          ok_inj p = cc

module _ {F H C : Type 0} (f : Floats F) (model : Model F H C) (limit : ℕ)
    (empty : f.less_eq (f.sum []) f.zero_f32 ≡ true)
    (sized : (hidden : H) (logits : List F)
      → model.logits hidden ≡ some (ok logits)
      → length logits ≡ model.vocab_size) where
  advance-guarded :
      (max_new_tokens step next : ℕ) (cache : C) (hidden : H) (next_pos : ℕ)
      → (step + 1 < max_new_tokens → next_pos < limit)
      → next < model.vocab_size
      → advance f (guarded limit model) max_new_tokens step next (cache, hidden, next_pos)
        ≡ advance f model max_new_tokens step next (cache, hidden, next_pos)
  unfolding advance
  advance-guarded max_new_tokens step next cache hidden next_pos within known =
      elim (Bool-cases (ltb (step + 1) max_new_tokens)) [
        | inr last ↦ rw last refl
        | inl more ↦
            rw
              (
                more,
                lt→ltb next_pos limit (within (ltb→lt (step + 1) max_new_tokens more)),
                lt→ltb next model.vocab_size known,
              )
              refl
      ]

  sampled_loop-guarded :
      (eos : Option ℕ) (stop_ids : List ℕ) (max_new_tokens prompt_len left step : ℕ) (s : Sampler F)
      (state : C × H × ℕ)
      → step + left ≡ max_new_tokens
      → prompt_len + (max_new_tokens - 1) ≤ limit
      → limit < 2 ^ 32
      → (0 < left → state.2 ≡ prompt_len + step)
      → sampled_loop f (guarded limit model) eos stop_ids max_new_tokens left step s state
        ≡ sampled_loop f model eos stop_ids max_new_tokens left step s state
  unfolding sampled_loop
  sampled_loop-guarded eos stop_ids max_new_tokens prompt_len zero step s (cache, hidden, next_pos)
        total fits word at =
      refl
  sampled_loop-guarded eos stop_ids max_new_tokens prompt_len (suc left) step s
        (cache, hidden, next_pos) total fits word at =
      >>=-cong_ok (lift (model.logits hidden)) (λ logits logits_ok.
        >>=-cong_ok (lift (sample f s logits)) (λ (next, s') chosen.
          let (known, _, _) = sample-Drawn f s logits (next, s') empty chosen in
          elim (Bool-cases (is_eos eos next || contains_id stop_ids next)) [
            | inl stop ↦ rw stop refl
            | inr more ↦
                rw
                  (
                    more,
                    advance-guarded max_new_tokens step next cache hidden next_pos
                        (λ deeper. omega (arith, at (omega arith)))
                        (omega (arith, known, sized hidden logits logits_ok)),
                  )
                  (>>=-cong_ok (tick (record { step = step; position = next_pos; id = next }))
                    (λ _ _.
                      >>=-cong_ok
                        (advance f model max_new_tokens step next (cache, hidden, next_pos))
                        (λ state state_ok.
                          ap
                            (λ (run : Run (List ℕ × Sampler F)).
                              run >>= λ r. pure (next ∷ r.0, r.1))
                            (sampled_loop-guarded eos stop_ids max_new_tokens prompt_len left
                              (step + 1) (observe s' next) state (omega arith) fits word
                              (λ later. omega (
                                arith,
                                at (omega arith),
                                advance-position f model max_new_tokens step next cache hidden
                                    next_pos state (omega arith) (omega (arith, at (omega arith)))
                                    state_ok,
                              ))))))
          ]))

-- For a model whose logits are as many as its tokens and whose context length is below 2 ^ 32, and a sum of
-- no values that is at most zero: generation with a sampler never prefills with a prompt that is longer
-- than the capacity of the cache or has a token out of the vocabulary, and never calls `forward` with a
-- token out of the vocabulary or at a position from that capacity on. A model that panics on such a call
-- generates the same.
pub generate-guarded :
    {F H C : Type 0} (f : Floats F) (model : Model F H C) (prompt_ids : List ℕ) (max_new_tokens : ℕ)
    (eos : Option ℕ) (stop_ids : List ℕ) (max_seq_len : ℕ) (s : Sampler F)
    → f.less_eq (f.sum []) f.zero_f32 ≡ true
    → ((hidden : H) (logits : List F)
        → model.logits hidden ≡ some (ok logits)
        → length logits ≡ model.vocab_size)
    → model.context_length < 2 ^ 32
    → generate_with_cache_and_sampler_with_stats f
        (guarded max_seq_len model)
        prompt_ids
        max_new_tokens
        eos
        stop_ids
        max_seq_len
        s
      ≡ generate_with_cache_and_sampler_with_stats f model prompt_ids max_new_tokens eos stop_ids
          max_seq_len s
unfolding generate_with_cache_and_sampler_with_stats observe_all
generate-guarded {F} f model prompt_ids max_new_tokens eos stop_ids max_seq_len s empty sized word =
    >>=-cong_ok
      (lift (
        some (
          check_prompt with_sampler model.vocab_size model.context_length prompt_ids max_new_tokens
            (some max_seq_len))))
      (λ _ checked.
        let (known, fits, within) =
          check_prompt-ok with_sampler model.vocab_size model.context_length prompt_ids
            max_new_tokens max_seq_len (omega arith) (some-injective checked) in
        >>=-cong_ok (lift (model.new_cache max_seq_len)) (λ cache _.
          let guard_passes : (leb (length prompt_ids) max_seq_len
                && all_below model.vocab_size prompt_ids)
              ≡ true =
            rw
              (
                le→leb (length prompt_ids) max_seq_len (omega (arith, fits)),
                all_below-true model.vocab_size prompt_ids known,
              )
              refl in
          rw guard_passes (
            >>=-cong_ok (lift (model.prefill cache prompt_ids)) (λ (cache', hidden) _.
              ap
                (λ (run : Run (List ℕ × Sampler F)). run >>= λ r. pure (
                  record {
                    generated_tokens = r.0;
                    prefill_tokens = length prompt_ids;
                    decode_tokens = length r.0;
                  },
                  r.1,
                ))
                (sampled_loop-guarded f model max_seq_len empty sized eos stop_ids max_new_tokens
                  (length prompt_ids) max_new_tokens 0 (observe_all s prompt_ids)
                  (cache', hidden, length prompt_ids % 2 ^ 32) (omega arith) fits
                  (omega (arith, within))
                  (λ _.
                    mod-eq_of_lt {n = length prompt_ids} {m = 2 ^ 32} (omega (arith, fits, within))
                    ∙ omega arith))))))
