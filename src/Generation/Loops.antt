-- ===== src/Generation/Loops.antt =====
-- src/model/generate.rs: the three generation loops. Durations are not modelled.
use project_willamette.Prelude.{
  ℕ, zero, suc, ◌+◌, ◌%◌, ◌^◌, Bool, false, ◌||◌, Option, none, some, List, [], ◌∷◌, ◌++◌, length,
  ltb, ◌==◌, if◌then◌else◌,
}
use project_willamette.Gguf.Result.{
  Operation, uncached, cached, with_sampler, ok, err, gguf_parse, empty_logits,
}
use project_willamette.Gguf.Outcome.{Outcome}
use project_willamette.Generation.Run.{Run, pure, lift, tick, ◌>>=◌, ◌>>◌}
use project_willamette.Generation.Budget.{check_prompt}
use project_willamette.Sampling.State.{Floats, Sampler, contains_id, observe}
use project_willamette.Sampling.Filters.{argmax}
use project_willamette.Sampling.Sample.{sample}

-- A model as the loops use it: `F` is `f32`, `H` the last hidden vector and `C` the cache.
pub record Model (F H C : Type 0) : Type 0 where
  pub vocab_size : ℕ
  pub context_length : ℕ
  -- `KVCache::try_new` with the model's layers and width, at a capacity.
  pub new_cache : ℕ → Outcome C
  -- `prefill_with_cache_into` from position 0.
  pub prefill : C → List ℕ → Outcome (C × H)
  -- `forward_with_cache_into` for a token at a position.
  pub forward : C → ℕ → ℕ → Outcome (C × H)
  -- `multi_token_forward`
  pub multi_forward : List ℕ → Outcome H
  -- `compute_logits_from_graph`
  pub logits : H → Outcome (List F)

pub record GenerationResult : Type 0 where
  pub generated_tokens : List ℕ
  pub prefill_tokens : ℕ
  pub decode_tokens : ℕ

unfoldable pub total_tokens : GenerationResult → ℕ
total_tokens r = r.prefill_tokens + r.decode_tokens

-- `Some(next) == eos_id`
unfoldable pub is_eos : Option ℕ → ℕ → Bool
is_eos none next = false
is_eos (some eos) next = next == eos

module _ {F : Type 0} where
  -- What `argmax(..).ok_or_else(..)?` gives.
  unfoldable pub best : Operation → Floats F → List F → Outcome ℕ
  best op f logits = elim (argmax f logits) [
    | none ↦ some (err (gguf_parse (empty_logits op)))
    | some id ↦ some (ok id)
  ]

  unfoldable pub observe_all : Sampler F → List ℕ → Sampler F
  observe_all sampler [] = sampler
  observe_all sampler (id ∷ ids) = observe_all (observe sampler id) ids

module _ {F H C : Type 0} (f : Floats F) (model : Model F H C) where
  -- The rounds of `greedy_generate_no_cache` that are left, from a step and a context.
  unfoldable pub uncached_loop : Option ℕ → ℕ → ℕ → List ℕ → Run (List ℕ)
  uncached_loop eos zero step context = pure []
  uncached_loop eos (suc left) step context = do
    hidden ← lift (model.multi_forward context)
    logits ← lift (model.logits hidden)
    next ← lift (best uncached f logits)
    if is_eos eos next then pure [] else (do
      tick (record { step = step; position = length context; id = next })
      rest ← uncached_loop eos left (step + 1) (context ++ next ∷ [])
      pure (next ∷ rest))

  unfoldable pub greedy_generate_no_cache : List ℕ → ℕ → Option ℕ → Run (List ℕ)
  greedy_generate_no_cache prompt_ids max_new_tokens eos = do
    lift (
        some (
          check_prompt uncached model.vocab_size model.context_length prompt_ids max_new_tokens
            none))
    uncached_loop eos max_new_tokens 0 prompt_ids

  -- The forward pass of an accepted token, unless it is the last: the cache, the hidden vector and the
  -- next position after it.
  unfoldable pub advance : ℕ → ℕ → ℕ → C × H × ℕ → Run (C × H × ℕ)
  advance max_new_tokens step next (cache, hidden, next_pos) =
      if ltb (step + 1) max_new_tokens
      then (do
        (cache', hidden') ← lift (model.forward cache next next_pos)
        pure (cache', hidden', (next_pos + 1) % 2 ^ 32))
      else pure (cache, hidden, next_pos)

  -- The rounds of `greedy_generate_with_cache` that are left.
  unfoldable pub greedy_loop : Option ℕ → ℕ → ℕ → ℕ → C × H × ℕ → Run (List ℕ)
  greedy_loop eos max_new_tokens zero step (cache, hidden, next_pos) = pure []
  greedy_loop eos max_new_tokens (suc left) step (cache, hidden, next_pos) = do
    logits ← lift (model.logits hidden)
    next ← lift (best cached f logits)
    if is_eos eos next then pure [] else (do
      tick (record { step = step; position = next_pos; id = next })
      state ← advance max_new_tokens step next (cache, hidden, next_pos)
      rest ← greedy_loop eos max_new_tokens left (step + 1) state
      pure (next ∷ rest))

  unfoldable pub greedy_generate_with_cache : List ℕ → ℕ → Option ℕ → ℕ → Run (List ℕ)
  greedy_generate_with_cache prompt_ids max_new_tokens eos max_seq_len = do
    lift (
        some (
          check_prompt cached model.vocab_size model.context_length prompt_ids max_new_tokens
            (some max_seq_len)))
    cache ← lift (model.new_cache max_seq_len)
    (cache', hidden) ← lift (model.prefill cache prompt_ids)
    greedy_loop eos max_new_tokens max_new_tokens 0 (cache', hidden, length prompt_ids % 2 ^ 32)

  -- The rounds of `generate_with_cache_and_sampler_with_stats` that are left, with the sampler.
  unfoldable pub sampled_loop :
      Option ℕ → List ℕ → ℕ → ℕ → ℕ → Sampler F → C × H × ℕ → Run (List ℕ × Sampler F)
  sampled_loop eos stop_ids max_new_tokens zero step sampler (cache, hidden, next_pos) =
      pure ([], sampler)
  sampled_loop eos stop_ids max_new_tokens (suc left) step sampler (cache, hidden, next_pos) = do
    logits ← lift (model.logits hidden)
    (next, sampler') ← lift (sample f sampler logits)
    if is_eos eos next || contains_id stop_ids next then pure ([], sampler') else (do
      tick (record { step = step; position = next_pos; id = next })
      state ← advance max_new_tokens step next (cache, hidden, next_pos)
      (rest, final) ←
          sampled_loop eos stop_ids max_new_tokens left (step + 1) (observe sampler' next) state
      pure (next ∷ rest, final))

  unfoldable pub generate_with_cache_and_sampler_with_stats :
      List ℕ → ℕ → Option ℕ → List ℕ → ℕ → Sampler F → Run (GenerationResult × Sampler F)
  generate_with_cache_and_sampler_with_stats prompt_ids max_new_tokens eos stop_ids max_seq_len
        sampler =
      do
        lift (
            some (
              check_prompt with_sampler model.vocab_size model.context_length prompt_ids
                max_new_tokens (some max_seq_len)))
        cache ← lift (model.new_cache max_seq_len)
        (cache', hidden) ← lift (model.prefill cache prompt_ids)
        (generated, final) ←
            sampled_loop eos stop_ids max_new_tokens max_new_tokens 0
              (observe_all sampler prompt_ids) (cache', hidden, length prompt_ids % 2 ^ 32)
        pure (
          record {
            generated_tokens = generated;
            prefill_tokens = length prompt_ids;
            decode_tokens = length generated;
          },
          final,
        )

  unfoldable pub generate_with_cache_and_sampler :
      List ℕ → ℕ → Option ℕ → List ℕ → ℕ → Sampler F → Run (List ℕ × Sampler F)
  generate_with_cache_and_sampler prompt_ids max_new_tokens eos stop_ids max_seq_len sampler = do
    (result, final) ←
        generate_with_cache_and_sampler_with_stats prompt_ids max_new_tokens eos stop_ids
          max_seq_len sampler
    pure (result.generated_tokens, final)
