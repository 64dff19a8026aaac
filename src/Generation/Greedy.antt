-- ===== src/Generation/Greedy.antt =====
-- The loop with a greedy sampler against the loop without a sampler, of src/model/generate.rs.
use project_willamette.Prelude.{
  leb, ltb, checked_add, ◌-◌, none, ℕ, zero, suc, ◌+◌, ◌%◌, ◌^◌, length, ◌≡◌, refl, sym, ap, ◌∙◌,
  Bool, true, false, ◌||◌, Option, some, List, [], ◌∷◌, Option-cases, Bool-cases, inl, inr,
}
use project_willamette.Gguf.Outcome.{Outcome}
use project_willamette.Gguf.Result.{
  Operation, Problem, Result, ◌>>◌, WillametteError, cached, with_sampler, sampling, ok, err,
  gguf_parse, empty_logits, empty_prompt, prompt_token, cache_beyond_context, budget_overflow,
  context_exceeded, cache_exceeded,
}
use project_willamette.Generation.Run.{Run, Tick, pure, lift, tick, ◌>>=◌, >>=-cong, >>=-assoc}
use project_willamette.Generation.Budget.{
  is_empty, check_prompt, check_tokens, check_capacity, check_needed, validate_generation_budget,
}
use project_willamette.Sampling.State.{Floats, Sampler, contains_id, observe, is_greedy}
use project_willamette.Sampling.Filters.{argmax}
use project_willamette.Sampling.Sample.{sample}
use project_willamette.Generation.Loops.{
  Model, is_eos, best, advance, greedy_loop, greedy_generate_with_cache, sampled_loop, observe_all,
  generate_with_cache_and_sampler_with_stats, generate_with_cache_and_sampler,
}

-- The ids of a run, without the sampler.
abbrev pub ids_of : {S : Type 0} → Run (List ℕ × S) → Run (List ℕ)
ids_of run = run >>= λ r. pure r.0

-- The ids of a run in two parts.
ids_of-parts :
    {A S : Type 0} (first : Run A) (next : A → Run (List ℕ × S))
    → (first >>= λ a. ids_of (next a)) ≡ ids_of (first >>= next)
ids_of-parts first next = sym (>>=-assoc first next (λ r. pure r.0))

with_first :
    {S : Type 0} (next : ℕ) (run : Run (List ℕ × S))
    → (ids_of run >>= λ rest. pure (next ∷ rest)) ≡ ids_of (run >>= λ r. pure (next ∷ r.0, r.1))
with_first next run =
    >>=-assoc run (λ r. pure r.0) (λ rest. pure (next ∷ rest))
    ∙ sym (>>=-assoc run (λ r. pure (next ∷ r.0, r.1)) (λ r. pure r.0))

-- A message without the name of the operation that it starts with.
abbrev pub unnamed : Problem → Problem
unnamed (empty_logits op) = empty_logits sampling
unnamed (empty_prompt op) = empty_prompt sampling
unnamed (prompt_token op) = prompt_token sampling
unnamed (cache_beyond_context op) = cache_beyond_context sampling
unnamed (budget_overflow op) = budget_overflow sampling
unnamed (context_exceeded op) = context_exceeded sampling
unnamed (cache_exceeded op) = cache_exceeded sampling
unnamed problem = problem

abbrev pub unnamed_error : WillametteError → WillametteError
unnamed_error (gguf_parse problem) = gguf_parse (unnamed problem)
unnamed_error error = error

abbrev pub unnamed_outcome : {A : Type 0} → Outcome A → Outcome A
unnamed_outcome none = none
unnamed_outcome (some (err e)) = some (err (unnamed_error e))
unnamed_outcome (some (ok a)) = some (ok a)

-- A run whose error has no name of an operation.
abbrev pub unnamed_run : {A : Type 0} → Run A → Run A
unnamed_run run = (run.0, unnamed_outcome run.1)

unnamed_run->>= :
    {A B : Type 0} (first : Run A) (next : A → Run B)
    → unnamed_run (first >>= next) ≡ (unnamed_run first >>= λ a. unnamed_run (next a))
unnamed_run->>= (ticks, none) next = refl
unnamed_run->>= (ticks, some (err e)) next = refl
unnamed_run->>= (ticks, some (ok a)) next = refl

-- Runs that differ in names only, after two first parts that do.
same_after :
    {A B : Type 0} (one two : Run A) (g h : A → Run B)
    → unnamed_run one ≡ unnamed_run two
    → ((a : A) → unnamed_run (g a) ≡ unnamed_run (h a))
    → unnamed_run (one >>= g) ≡ unnamed_run (two >>= h)
same_after one two g h first later =
    unnamed_run->>= one g
    ∙ ap (λ run. run >>= λ a. unnamed_run (g a)) first
    ∙ >>=-cong (unnamed_run two) later
    ∙ sym (unnamed_run->>= two h)

with_tick :
    {A S : Type 0} (t : Tick) (next : ℕ) (first : Run A) (plain : A → Run (List ℕ))
    (paired : A → Run (List ℕ × S))
    → ((a : A) → unnamed_run (plain a) ≡ unnamed_run (ids_of (paired a)))
    → unnamed_run (tick t >>= λ _. first >>= λ a. plain a >>= λ rest. pure (next ∷ rest))
      ≡ unnamed_run
          (ids_of (tick t >>= λ _. first >>= λ a. paired a >>= λ r. pure (next ∷ r.0, r.1)))
with_tick {A} t next first plain paired same =
    let add : List ℕ → Run (List ℕ) = λ rest. pure (next ∷ rest) in
    let one : A → Run (List ℕ) = λ a. plain a >>= add in
    let two : A → Run (List ℕ) = λ a. ids_of (paired a) >>= add in
    let each : (a : A) → unnamed_run (one a) ≡ unnamed_run (two a) =
      λ a. same_after (plain a) (ids_of (paired a)) add add (same a) (λ rest. refl) in
    same_after (tick t) (tick t) (λ _. first >>= one) (λ _. first >>= two) refl
      (λ _. same_after first first one two refl each)
    ∙ ap unnamed_run (
        >>=-cong (tick t) (λ _.
          >>=-cong first (λ a. with_first next (paired a))
          ∙ ids_of-parts first (λ a. paired a >>= λ r. pure (next ∷ r.0, r.1)))
        ∙ ids_of-parts (tick t) (λ _. first >>= λ a. paired a >>= λ r. pure (next ∷ r.0, r.1)))

observe_all-params :
    {F : Type 0} (s : Sampler F) (ids : List ℕ) → (observe_all s ids).params ≡ s.params
unfolding observe_all observe
observe_all-params s [] = refl
observe_all-params s (id ∷ ids) = observe_all-params (observe s id) ids

module _ {F H C : Type 0} (f : Floats F) (model : Model F H C) where
  stops-eos :
      (eos : Option ℕ) (next : ℕ) → (is_eos eos next || contains_id [] next) ≡ is_eos eos next
  unfolding contains_id
  stops-eos eos next = or_false (is_eos eos next)
    where
      or_false : (b : Bool) → (b || false) ≡ b
      or_false true = refl
      or_false false = refl

  greedy_loop-sampled :
      (eos : Option ℕ) (max_new_tokens left step : ℕ) (s : Sampler F) (state : C × H × ℕ)
      → is_greedy f s.params ≡ true
      → unnamed_run (greedy_loop f model eos max_new_tokens left step state)
        ≡ unnamed_run (ids_of (sampled_loop f model eos [] max_new_tokens left step s state))
  unfolding greedy_loop sampled_loop observe best sample
  greedy_loop-sampled eos max_new_tokens zero step s (cache, hidden, next_pos) greedy = refl
  greedy_loop-sampled eos max_new_tokens (suc left) step s (cache, hidden, next_pos) greedy =
      same_after (lift (model.logits hidden)) (lift (model.logits hidden)) _ _ refl (λ logits.
        elim (Option-cases (argmax f logits)) [
          | inl empty ↦ rw (best, sample, greedy, empty) refl
          | inr (next, at) ↦
              rw (best, sample, greedy, at, stops-eos eos next)
                (elim (Bool-cases (is_eos eos next)) [
                  | inl stop ↦ rw stop refl
                  | inr more ↦ rw more (
                      with_tick (record { step = step; position = next_pos; id = next }) next
                        (advance f model max_new_tokens step next (cache, hidden, next_pos))
                        (greedy_loop f model eos max_new_tokens left (step + 1))
                        (sampled_loop f model eos [] max_new_tokens left (step + 1)
                          (observe s next))
                        (λ state.
                          greedy_loop-sampled eos max_new_tokens left (step + 1) (observe s next)
                            state greedy))
                ])
        ])
      ∙ ap unnamed_run (ids_of-parts (lift (model.logits hidden)) _)

budget-unnamed :
    (one two : Operation) (len max_new_tokens n context_length : ℕ)
    → unnamed_outcome
        (some (validate_generation_budget one len max_new_tokens (some n) context_length))
      ≡ unnamed_outcome
          (some (validate_generation_budget two len max_new_tokens (some n) context_length))
unfolding validate_generation_budget check_capacity check_needed
budget-unnamed one two len max_new_tokens n context_length =
    elim (Bool-cases (ltb context_length n)) [
      | inl y ↦ rw y refl
      | inr y ↦ elim (Option-cases (checked_add len (max_new_tokens - 1))) [
        | inl over ↦ rw (y, over) refl
        | inr (needed, fits) ↦ elim (Bool-cases (ltb context_length needed)) [
          | inl z ↦ rw (y, fits, z) refl
          | inr z ↦ elim (Bool-cases (ltb n needed)) [
            | inl w ↦ rw (y, fits, z, w) refl
            | inr w ↦ rw (y, fits, z, w) refl
          ]
        ]
      ]
    ]

tokens-unnamed :
    (one two : Operation) (vocab_size : ℕ) (tokens : List ℕ) (g h : Result (Unit {0}))
    → unnamed_outcome (some g) ≡ unnamed_outcome (some h)
    → unnamed_outcome (some (check_tokens one vocab_size tokens >> g))
      ≡ unnamed_outcome (some (check_tokens two vocab_size tokens >> h))
unfolding check_tokens
tokens-unnamed one two vocab_size [] g h same = same
tokens-unnamed one two vocab_size (t ∷ ts) g h same = elim (Bool-cases (leb vocab_size t)) [
  | inl y ↦ rw (check_tokens, y) refl
  | inr y ↦ rw (check_tokens, y) (tokens-unnamed one two vocab_size ts g h same)
]

-- The checks of a prompt differ in the names only.
check_prompt-unnamed :
    (one two : Operation) (vocab_size context_length : ℕ) (ids : List ℕ) (max_new_tokens n : ℕ)
    → unnamed_outcome
        (some (check_prompt one vocab_size context_length ids max_new_tokens (some n)))
      ≡ unnamed_outcome
          (some (check_prompt two vocab_size context_length ids max_new_tokens (some n)))
unfolding check_prompt is_empty
check_prompt-unnamed one two vocab_size context_length [] max_new_tokens n = refl
check_prompt-unnamed one two vocab_size context_length (id ∷ ids) max_new_tokens n =
    tokens-unnamed one two vocab_size (id ∷ ids) _ _
      (budget-unnamed one two (length (id ∷ ids)) max_new_tokens n context_length)

-- With a sampler whose parameters are greedy and no stop ids, `generate_with_cache_and_sampler` calls the
-- callback as `greedy_generate_with_cache` does and comes to the same ids, panic or error, but for the name
-- of the operation that an error's message may start with, for every model, prompt and budget.
pub generate_with_cache_and_sampler-greedy :
    {F H C : Type 0} (f : Floats F) (model : Model F H C) (prompt_ids : List ℕ) (max_new_tokens : ℕ)
    (eos : Option ℕ) (max_seq_len : ℕ) (s : Sampler F)
    → is_greedy f s.params ≡ true
    → unnamed_run (
        ids_of
          (generate_with_cache_and_sampler f model prompt_ids max_new_tokens eos [] max_seq_len s))
      ≡ unnamed_run (greedy_generate_with_cache f model prompt_ids max_new_tokens eos max_seq_len)
unfolding generate_with_cache_and_sampler generate_with_cache_and_sampler_with_stats
    greedy_generate_with_cache
generate_with_cache_and_sampler-greedy f model prompt_ids max_new_tokens eos max_seq_len s greedy =
    let check : Operation → Run (Unit {0}) = λ op. lift (
      some (
        check_prompt op model.vocab_size model.context_length prompt_ids max_new_tokens
          (some max_seq_len))) in
    sym (
      same_after (check cached) (check with_sampler) _ _
        (ap (λ o. ([], o))
          (check_prompt-unnamed cached with_sampler model.vocab_size model.context_length prompt_ids
            max_new_tokens max_seq_len))
        (λ _.
          same_after (lift (model.new_cache max_seq_len)) (lift (model.new_cache max_seq_len)) _ _
            refl
            (λ cache.
              same_after (lift (model.prefill cache prompt_ids))
                (lift (model.prefill cache prompt_ids)) _ _ refl
                (λ (cache', hidden).
                  greedy_loop-sampled f model eos max_new_tokens max_new_tokens 0
                    (observe_all s prompt_ids) (cache', hidden, length prompt_ids % 2 ^ 32)
                    (ap (is_greedy f) (observe_all-params s prompt_ids) ∙ greedy)
                  ∙ ap unnamed_run (
                      sym (
                        >>=-assoc
                          (sampled_loop f model eos [] max_new_tokens max_new_tokens 0
                            (observe_all s prompt_ids) (cache', hidden, length prompt_ids % 2 ^ 32))
                          _ _)))
              ∙ ap unnamed_run (sym (>>=-assoc (lift (model.prefill cache prompt_ids)) _ _)))
          ∙ ap unnamed_run (sym (>>=-assoc (lift (model.new_cache max_seq_len)) _ _)))
      ∙ ap unnamed_run (
          sym (>>=-assoc (check with_sampler) _ _)
          ∙ ids_of-parts
              (generate_with_cache_and_sampler_with_stats f model prompt_ids max_new_tokens eos []
                max_seq_len s)
              _))
