-- ===== src/Generation/Budget.antt =====
-- src/model/generate.rs: `validate_generation_budget` and the checks before it. A message names
-- the operation that made the check.
use project_willamette.Prelude.{
  ℕ, ◌+◌, ◌-◌, ◌≤◌, ◌<◌, ◌≡◌, ◌↔◌, arith, Bool, true, false, Option, none, some, List, [], ◌∷◌,
  length, All, leb, ltb, if◌then◌else◌, checked_add, u64_mod, Bool-cases, inl, inr,
}
use project_willamette.Gguf.Result.{
  Operation, Result, ok, err, ok_or, >>=-eq-ok, ◌>>=◌, ◌>>◌, gguf_parse, empty_prompt, prompt_token,
  cache_beyond_context, budget_overflow, context_exceeded, cache_exceeded,
}

-- The checks of the cache's capacity, where there is a cache.
unfoldable pub check_capacity : Operation → Option ℕ → ℕ → Result (Unit {0})
check_capacity op none context_length = ok tt
check_capacity op (some max_seq_len) context_length =
    if ltb context_length max_seq_len then err (gguf_parse (cache_beyond_context op)) else ok tt

unfoldable pub check_needed : Operation → Option ℕ → ℕ → Result (Unit {0})
check_needed op none needed = ok tt
check_needed op (some max_seq_len) needed =
    if ltb max_seq_len needed then err (gguf_parse (cache_exceeded op)) else ok tt

unfoldable pub validate_generation_budget : Operation → ℕ → ℕ → Option ℕ → ℕ → Result (Unit {0})
validate_generation_budget op prompt_len max_new_tokens max_seq_len context_length = do
  check_capacity op max_seq_len context_length
  needed ← ok_or (checked_add prompt_len (max_new_tokens - 1)) (budget_overflow op)
  if ltb context_length needed
      then err (gguf_parse (context_exceeded op))
      else check_needed op max_seq_len needed

unfoldable pub check_tokens : Operation → ℕ → List ℕ → Result (Unit {0})
check_tokens op vocab_size [] = ok tt
check_tokens op vocab_size (id ∷ ids) =
    let rest = check_tokens op vocab_size ids in
    if leb vocab_size id then err (gguf_parse (prompt_token op)) else rest

unfoldable pub is_empty : List ℕ → Bool
is_empty [] = true
is_empty (id ∷ ids) = false

-- What each of the loops checks first.
unfoldable pub check_prompt : Operation → ℕ → ℕ → List ℕ → ℕ → Option ℕ → Result (Unit {0})
check_prompt op vocab_size context_length prompt_ids max_new_tokens max_seq_len = do
  if is_empty prompt_ids then err (gguf_parse (empty_prompt op)) else ok (tt {0})
  check_tokens op vocab_size prompt_ids
  validate_generation_budget op (length prompt_ids) max_new_tokens max_seq_len context_length

check_tokens-ok :
    (op : Operation) (vocab_size : ℕ) (ids : List ℕ)
    → check_tokens op vocab_size ids ≡ ok tt
    → All (λ id. id < vocab_size) ids
unfolding check_tokens
check_tokens-ok op vocab_size [] h = tt
check_tokens-ok op vocab_size (id ∷ ids) h = elim (Bool-cases (leb vocab_size id)) [
  | inl beyond ↦ cc (rw (check_tokens, beyond) at h)
  | inr within ↦ (ground arith, check_tokens-ok op vocab_size ids (rw (check_tokens, within) at h))
]

-- For a context length in u64, the budget is accepted, for a cache, exactly where the cache is no larger
-- than the model's context and the prompt and every generated token but the last fit in it, without
-- overflow.
pub validate_generation_budget_iff :
    (op : Operation) (prompt_len max_new_tokens max_seq_len context_length : ℕ)
    → context_length < u64_mod
    → (validate_generation_budget op prompt_len max_new_tokens (some max_seq_len) context_length
        ≡ ok tt)
      ↔ ((prompt_len + (max_new_tokens - 1) ≤ max_seq_len) × (max_seq_len ≤ context_length))
unfolding validate_generation_budget check_capacity check_needed checked_add
validate_generation_budget_iff op prompt_len max_new_tokens max_seq_len context_length word =
    ground arith

-- What the checks leave for the loop with a cache.
pub check_prompt-ok :
    (op : Operation) (vocab_size context_length : ℕ) (prompt_ids : List ℕ)
    (max_new_tokens max_seq_len : ℕ)
    → context_length < u64_mod
    → check_prompt op vocab_size context_length prompt_ids max_new_tokens (some max_seq_len) ≡ ok tt
    → All (λ id. id < vocab_size) prompt_ids
      × (length prompt_ids + (max_new_tokens - 1) ≤ max_seq_len)
      × (max_seq_len ≤ context_length)
unfolding check_prompt
check_prompt-ok op vocab_size context_length prompt_ids max_new_tokens max_seq_len word h =
    let (_, _, h1) =
      >>=-eq-ok (if is_empty prompt_ids then err (gguf_parse (empty_prompt op)) else ok (tt {0})) _
        h in
    let (_, tokens, h2) = >>=-eq-ok (check_tokens op vocab_size prompt_ids) _ h1 in
    let (fits, within) =
      (validate_generation_budget_iff op (length prompt_ids) max_new_tokens max_seq_len
          context_length word).0
        h2 in
    (check_tokens-ok op vocab_size prompt_ids tokens, fits, within)
