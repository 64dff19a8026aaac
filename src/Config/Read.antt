-- ===== src/Config/Read.antt =====
-- src/model/config.rs. An `f32` is its word; `narrow` is the cast of an `f64` to it.
use project_willamette.Prelude.{
  ℕ, zero, suc, ◌+◌, ◌-◌, ◌*◌, ◌/◌, ◌%◌, ◌^◌, Bool, true, false, not, ◌&&◌, ◌||◌, Option, none,
  some, List, [], ◌∷◌, length, ltb, leb, ◌==◌, if◌then◌else◌,
}
use project_willamette.Prelude
use project_willamette.Gguf.Result.{
  Result, ok, err, ◌>>=◌, WillametteError, gguf_parse, missing_metadata, not_implemented,
  beyond_u32, no_head, indivisible_embedding, no_kv_head, indivisible_heads, kv_dim_overflow,
  rope_not_head_dim, odd_rope, zero_blocks, zero_vocab, zero_dims, bad_epsilon, bad_freq_base,
  partial_rope, rope_scaling,
}
use project_willamette.Gguf.Values.{GgufValue, GgufValues, as_u64, as_str}
use project_willamette.Gguf.Header.{Metadata, lookup_key}
use project_willamette.Editor.Text.{text_eq}
use project_willamette.Config.Keys.{
  key, block_count_suffix, embedding_length_suffix, feed_forward_length_suffix,
  context_length_suffix, head_count_suffix, head_count_kv_suffix, rms_epsilon_suffix,
  rope_dimension_count_suffix, freq_base_suffix, vocab_size_suffix, scaling_suffix,
  scaling_type_suffix, tokens_key, none_string,
}

pub record ModelConfig : Type 0 where
  pub architecture : List ℕ
  pub block_count : ℕ
  pub embedding_length : ℕ
  pub feed_forward_length : ℕ
  pub context_length : ℕ
  pub head_count : ℕ
  pub head_count_kv : ℕ
  pub head_dim : ℕ
  pub kv_dim : ℕ
  pub layer_norm_rms_epsilon : ℕ
  pub rope_dimension_count : ℕ
  pub rope_freq_base : ℕ
  pub vocab_size : ℕ

-- What a key holds, as `convert` reads it.
unfoldable pub typed : {A : Type 0} → (GgufValue → Option A) → List ℕ → Metadata → Option A
typed convert name meta = Prelude.◌>>=◌ (lookup_key name meta) convert

unfoldable pub ok_or_missing : {A : Type 0} → Option A → List ℕ → Result A
ok_or_missing none name = err (missing_metadata name)
ok_or_missing (some a) name = ok a

unfoldable pub as_u32 : ℕ → Result ℕ
as_u32 v = if ltb (2 ^ 32 - 1) v then err (gguf_parse beyond_u32) else ok v

unfoldable pub required_str : Metadata → List ℕ → Result (List ℕ)
required_str meta name = ok_or_missing (typed as_str name meta) name

unfoldable pub required_u32 : Metadata → List ℕ → Result ℕ
required_u32 meta name = do v ← ok_or_missing (typed as_u64 name meta) name; as_u32 v

unfoldable pub optional_u32 : Metadata → List ℕ → Result (Option ℕ)
optional_u32 meta name = elim (lookup_key name meta) [
  | none ↦ ok none
  | some value ↦ (do v ← ok_or_missing (as_u64 value) name; w ← as_u32 v; ok (some w))
]

-- `GgufValue::as_f32`
unfoldable pub as_f32 : (ℕ → ℕ) → GgufValue → Option ℕ
as_f32 narrow (GgufValue.float32_value v) = some v
as_f32 narrow (GgufValue.float64_value v) = some (narrow v)
as_f32 narrow _ = none

unfoldable pub required_f32 : (ℕ → ℕ) → Metadata → List ℕ → Result ℕ
required_f32 narrow meta name = ok_or_missing (typed (as_f32 narrow) name meta) name

unfoldable pub optional_f32 : (ℕ → ℕ) → Metadata → List ℕ → Result (Option ℕ)
optional_f32 narrow meta name = elim (lookup_key name meta) [
  | none ↦ ok none
  | some value ↦ (do v ← ok_or_missing (as_f32 narrow value) name; ok (some v))
]

-- `GgufValue::as_string_array`
unfoldable pub strings_of : GgufValues → Option (List (List ℕ))
strings_of GgufValues.nil = some []
strings_of (GgufValues.cons v vs) =
    Prelude.◌>>=◌ (as_str v) λ s. Prelude.◌>>=◌ (strings_of vs) λ rest. some (s ∷ rest)

unfoldable pub as_string_array : GgufValue → Option (List (List ℕ))
as_string_array (GgufValue.array_value vs) = strings_of vs
as_string_array _ = none

unfoldable pub tokenizer_vocab_size : Metadata → Result ℕ
tokenizer_vocab_size meta = do
  tokens ← ok_or_missing (typed as_string_array tokens_key meta) tokens_key
  as_u32 (length tokens)

unfoldable pub check : Bool → WillametteError → Result (Unit {0})
check bad e = if bad then err e else ok tt

-- `u32::checked_mul`
unfoldable pub checked_mul_u32 : ℕ → ℕ → Result ℕ
checked_mul_u32 a b = if ltb (a * b) (2 ^ 32) then ok (a * b) else err (gguf_parse kv_dim_overflow)

unfoldable pub unwrap_or : Option ℕ → ℕ → ℕ
unwrap_or none d = d
unwrap_or (some v) d = v

unfoldable pub from_gguf_metadata_with_prefix :
    (ℕ → ℕ) → List ℕ → List ℕ → Metadata → Result ModelConfig
from_gguf_metadata_with_prefix narrow arch prefix meta = do
  block_count ← required_u32 meta (key prefix block_count_suffix)
  embedding_length ← required_u32 meta (key prefix embedding_length_suffix)
  feed_forward_length ← required_u32 meta (key prefix feed_forward_length_suffix)
  context_length ← required_u32 meta (key prefix context_length_suffix)
  head_count ← required_u32 meta (key prefix head_count_suffix)
  head_count_kv ← required_u32 meta (key prefix head_count_kv_suffix)
  epsilon ← required_f32 narrow meta (key prefix rms_epsilon_suffix)
  rope_dimension_count ← required_u32 meta (key prefix rope_dimension_count_suffix)
  freq_base ← required_f32 narrow meta (key prefix freq_base_suffix)
  vocab_size ← required_u32 meta (key prefix vocab_size_suffix)
  _ ← check (head_count == 0) (gguf_parse no_head)
  _ ← check (not (embedding_length % head_count == 0)) (gguf_parse indivisible_embedding)
  _ ← check (head_count_kv == 0) (gguf_parse no_kv_head)
  _ ← check (not (head_count % head_count_kv == 0)) (gguf_parse indivisible_heads)
  kv_dim ← checked_mul_u32 (embedding_length / head_count) head_count_kv
  _ ←
      check (not (rope_dimension_count == embedding_length / head_count))
        (gguf_parse rope_not_head_dim)
  _ ← check (block_count == 0) (gguf_parse zero_blocks)
  _ ← check (vocab_size == 0) (gguf_parse zero_vocab)
  ok (record {
    architecture = arch;
    block_count = block_count;
    embedding_length = embedding_length;
    feed_forward_length = feed_forward_length;
    context_length = context_length;
    head_count = head_count;
    head_count_kv = head_count_kv;
    head_dim = embedding_length / head_count;
    kv_dim = kv_dim;
    layer_norm_rms_epsilon = epsilon;
    rope_dimension_count = rope_dimension_count;
    rope_freq_base = freq_base;
    vocab_size = vocab_size;
  })

-- `is_finite` and `x <= 0.0` of the `f32` with a word.
unfoldable pub is_finite : ℕ → Bool
is_finite w = not (w / 2 ^ 23 % 256 == 255)

unfoldable pub at_most_zero : ℕ → Bool
at_most_zero w = w == 0 || (leb (2 ^ 31) w && leb w 0xff80_0000)

unfoldable pub starts_with : List ℕ → List ℕ → Bool
starts_with [] s = true
starts_with (a ∷ t) [] = false
starts_with (a ∷ t) (b ∷ s) = a == b && starts_with t s

unfoldable pub has_key : List ℕ → List (List ℕ) → Bool
has_key name [] = false
has_key name (k ∷ ks) = text_eq k name || has_key name ks

-- The keys with a prefix, each of them once.
unfoldable pub keys_with : List ℕ → Metadata → List (List ℕ)
keys_with prefix [] = []
keys_with prefix ((k, v) ∷ meta) =
    let rest = keys_with prefix meta in
    if starts_with prefix k && not (has_key k rest) then k ∷ rest else rest

-- Whether the one key is the type of the scaling, and holds `none`.
unfoldable pub explicit_unscaled : List ℕ → List (List ℕ) → Metadata → Bool
explicit_unscaled type_key (k ∷ []) meta =
    text_eq k type_key
    && elim (typed as_str k meta) [ none ↦ false | some s ↦ text_eq s none_string ]
explicit_unscaled type_key _ meta = false

unfoldable pub is_nil : List (List ℕ) → Bool
is_nil [] = true
is_nil (k ∷ ks) = false

-- 10_000.0
abbrev pub default_freq_base : ℕ
default_freq_base = 0x461c_4000

unfoldable pub from_llama_metadata_with_prefix :
    (ℕ → ℕ) → List ℕ → List ℕ → Metadata → Result ModelConfig
from_llama_metadata_with_prefix narrow arch prefix meta = do
  block_count ← required_u32 meta (key prefix block_count_suffix)
  embedding_length ← required_u32 meta (key prefix embedding_length_suffix)
  feed_forward_length ← required_u32 meta (key prefix feed_forward_length_suffix)
  context_length ← required_u32 meta (key prefix context_length_suffix)
  head_count ← required_u32 meta (key prefix head_count_suffix)
  own_kv ← optional_u32 meta (key prefix head_count_kv_suffix)
  epsilon ← required_f32 narrow meta (key prefix rms_epsilon_suffix)
  _ ←
      check (head_count == 0 || not (embedding_length % head_count == 0))
        (gguf_parse indivisible_embedding)
  own_rope ← optional_u32 meta (key prefix rope_dimension_count_suffix)
  own_base ← optional_f32 narrow meta (key prefix freq_base_suffix)
  vocab_size ← tokenizer_vocab_size meta
  _ ←
      check
        (unwrap_or own_kv head_count == 0 || not (head_count % unwrap_or own_kv head_count == 0))
        (gguf_parse indivisible_heads)
  kv_dim ← checked_mul_u32 (embedding_length / head_count) (unwrap_or own_kv head_count)
  _ ←
      check
        (not (unwrap_or own_rope (embedding_length / head_count) == embedding_length / head_count))
        (not_implemented partial_rope)
  _ ←
      check (not (unwrap_or own_rope (embedding_length / head_count) % 2 == 0))
        (gguf_parse odd_rope)
  _ ←
      check
        (let scaling_keys = keys_with (key prefix scaling_suffix) meta in
          not (is_nil scaling_keys)
          && not (explicit_unscaled (key prefix scaling_type_suffix) scaling_keys meta))
        (not_implemented rope_scaling)
  _ ←
      check
        (block_count == 0
          || (embedding_length == 0
              || (feed_forward_length == 0 || (context_length == 0 || vocab_size == 0))))
        (gguf_parse zero_dims)
  _ ← check (not (is_finite epsilon) || at_most_zero epsilon) (gguf_parse bad_epsilon)
  _ ←
      check
        (not (is_finite (unwrap_or own_base default_freq_base))
          || at_most_zero (unwrap_or own_base default_freq_base))
        (gguf_parse bad_freq_base)
  ok (record {
    architecture = arch;
    block_count = block_count;
    embedding_length = embedding_length;
    feed_forward_length = feed_forward_length;
    context_length = context_length;
    head_count = head_count;
    head_count_kv = unwrap_or own_kv head_count;
    head_dim = embedding_length / head_count;
    kv_dim = kv_dim;
    layer_norm_rms_epsilon = epsilon;
    rope_dimension_count = unwrap_or own_rope (embedding_length / head_count);
    rope_freq_base = unwrap_or own_base default_freq_base;
    vocab_size = vocab_size;
  })
