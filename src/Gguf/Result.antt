-- ===== src/Gguf/Result.antt =====
-- src/error.rs: `WillametteError`, as far as the modelled code makes it. A formatted message is
-- represented by the check that writes it and the numbers that the check is about.
use mathlib.Core.Path.{subst}
use project_willamette.Prelude.{
  List, ℕ, ◌≡◌, refl, Option, none, some, Bool, true, false, if◌then◌else◌,
}

-- The operations whose name starts the message of a check that several of them make:
-- `greedy_generate_no_cache`, `greedy_generate_with_cache`, `generate_with_cache_and_sampler` and
-- `Sampler::sample`.
pub data Operation : Type 0 where
  uncached cached with_sampler sampling : Operation

pub data Problem : Type 0 where
  short_read invalid_utf8 : Problem
  count_limit count_overflow count_no_fit : Problem
  string_limit array_depth array_limit array_overflow array_no_fit : Problem
  unknown_type : ℕ → Problem
  bad_alignment too_many_dims : ℕ → Problem
  section_overflow section_beyond_eof : Problem
  offset_overflow shared_offset next_overflow unknown_length end_overflow overlap : Problem
  scale_overflow scale_overlap : Problem
  no_dims misaligned_row rows_overflow row_size_overflow size_overflow : Problem
  shape_overflow misaligned_blocks length_overflow : Problem
  slot_end_overflow slot_underflow align_overflow previous_underflow slot_overflow : Problem
  running_overflow absolute_overflow artifact_overflow : Problem
  patch_bounds missing_descriptor start_bounds source_bounds : Problem
  not_monotonic position_overflow wrong_total : Problem
  wrong_layers wrong_kv_dim cache_overflow not_synchronized append_overflow : Problem
  beyond_max_seq_len layer_range vector_length layer_full no_memory : Problem
  missing_bos missing_eos special_range token_range no_inverse missing_symbol : Problem
  malformed_piece missing_marker invalid_text : Problem
  missing_key : List ℕ → Problem
  wrong_kind empty_vocabulary unknown_model unknown_pre malformed_merge missing_bytes : Problem
  not_matrix zero_width : Problem
  lengths_differ not_finite bad_token_type missing_byte_piece bad_byte_type id_range : Problem
  bad_total : Problem
  empty_logits empty_prompt prompt_token : Operation → Problem
  cache_beyond_context budget_overflow context_exceeded cache_exceeded : Operation → Problem
  no_head indivisible_embedding no_kv_head indivisible_heads kv_dim_overflow : Problem
  rope_not_head_dim odd_rope zero_blocks zero_vocab zero_dims : Problem
  bad_epsilon bad_freq_base partial_rope rope_scaling beyond_u32 : Problem

pub data WillametteError : Type 0 where
  gguf_parse : Problem → WillametteError
  invalid_magic : ℕ → WillametteError
  unsupported_version : ℕ → WillametteError
  tensor_out_of_bounds : ℕ → ℕ → ℕ → WillametteError
  unsupported_tokenizer : Problem → WillametteError
  missing_metadata : List ℕ → WillametteError
  unsupported_architecture : List ℕ → WillametteError
  not_implemented : Problem → WillametteError

-- `Result<A, WillametteError>`.
pub data Result {ℓ} (A : Type ℓ) : Type ℓ where
  err : WillametteError → Result A
  ok : A → Result A

-- `ok_or_else`.
abbrev pub ok_or {ℓ} : {A : Type ℓ} → Option A → Problem → Result A
ok_or none p = err (gguf_parse p)
ok_or (some a) p = ok a

-- `?`.
infixl 5 ◌>>=◌
abbrev pub ◌>>=◌ {ℓ κ} : {A : Type ℓ} {B : Type κ} → Result A → (A → Result B) → Result B
err failure >>= next = err failure
ok a >>= next = next a

infixl 5 ◌>>◌
abbrev pub ◌>>◌ {ℓ κ} : {A : Type ℓ} {B : Type κ} → Result A → Result B → Result B
first >> second = first >>= λ _. second

pub >>=-eq-ok {ℓ κ} :
    {A : Type ℓ} {B : Type κ} (first : Result A) (next : A → Result B) {b : B}
    → (first >>= next) ≡ ok b
    → (a : A) × (first ≡ ok a) × (next a ≡ ok b)
>>=-eq-ok (err failure) next h = cc
>>=-eq-ok (ok a) next h = (a, refl, h)

pub ok_or-eq-ok {ℓ} :
    {A : Type ℓ} (o : Option A) (p : Problem) (a : A) → ok_or o p ≡ ok a → o ≡ some a
ok_or-eq-ok none p a h = cc
ok_or-eq-ok (some b) p a h = cc

-- A check that ends the function early was not the one that ended it, if the function returned.
pub early-eq-ok {ℓ} :
    {A : Type ℓ} (b : Bool) (e : WillametteError) (m : Result A) (a : A)
    → (if b then err e else m) ≡ ok a
    → (b ≡ false) × (m ≡ ok a)
early-eq-ok true e m a h = cc
early-eq-ok false e m a h = (refl, h)

pub check-eq-ok {ℓ} :
    {A : Type ℓ} (b : Bool) (e : WillametteError) (m : Result A) (a : A)
    → ((if b then err e else ok (tt {0})) >> m) ≡ ok a
    → (b ≡ false) × (m ≡ ok a)
check-eq-ok true e m a h = cc
check-eq-ok false e m a h = (refl, h)

-- What holds of the value of a call that returns one.
abbrev pub Gives {ℓ κ} : {A : Type ℓ} → (A → Type κ) → Result A → Type (ℓ ⊔ κ)
Gives P m = (a : _) → m ≡ ok a → P a

pub >>=-Gives {ℓ κ μ} :
    {A : Type ℓ} {B : Type κ} (P : B → Type μ) (first : Result A) (next : A → Result B)
    → ((a : A) → first ≡ ok a → Gives P (next a))
    → Gives P (first >>= next)
>>=-Gives P (err failure) next h b e = cc
>>=-Gives P (ok a) next h b e = h a refl b e

pub ok-Gives {ℓ κ} : {A : Type ℓ} (P : A → Type κ) (a : A) → P a → Gives P (ok a)
ok-Gives {A = A} P a h b e = subst P (ok_injective e) h
  where
    ok_injective : {x y : A} → ok x ≡ ok y → x ≡ y
    ok_injective p = cc
