-- ===== src/KvCache/Cache.antt =====
-- src/model/kv_cache.rs: the operations of `KVCache`. The outer `none` of a result is a panic.
use project_willamette.Prelude.{
  ℕ, zero, suc, ◌+◌, ◌*◌, ◌%◌, Bool, true, false, not, ◌&&◌, ◌||◌, Option, none, some, List, [],
  ◌∷◌, map, length, take, get_elem?, set, leb, ltb, ◌==◌, if◌then◌else◌, checked_add, checked_mul,
  u64_mod,
}
use project_willamette.Gguf.Result.{
  Result, ok, err, ok_or, ◌>>=◌, gguf_parse, wrong_layers, wrong_kv_dim, cache_overflow,
  not_synchronized, append_overflow, beyond_max_seq_len, layer_range, vector_length, layer_full,
  no_memory,
}
use project_willamette.KvCache.State.{Floats, LayerKv, KvCache, append_quantised}

module _ {F I8 : Type 0} where
  abbrev pub empty_layer : LayerKv F I8
  empty_layer = record { k_quant = []; k_scales = []; v_quant = []; v_scales = [] }

  -- `reserve n` tells whether a reservation of `n` elements succeeds.
  unfoldable pub new_layers : (ℕ → Bool) → ℕ → ℕ → ℕ → Result (List (LayerKv F I8))
  new_layers reserve quant_capacity max_seq_len zero = ok []
  new_layers reserve quant_capacity max_seq_len (suc n) =
      let rest = new_layers reserve quant_capacity max_seq_len n in
      if reserve quant_capacity && reserve max_seq_len
      then (do layers ← rest; ok (empty_layer ∷ layers))
      else err (gguf_parse no_memory)

  unfoldable pub try_new : (ℕ → Bool) → ℕ → ℕ → ℕ → Result (KvCache F I8)
  try_new reserve n_layers kv_dim max_seq_len = do
    quant_capacity ← ok_or (checked_mul max_seq_len kv_dim) cache_overflow
    if reserve n_layers
        then (do
          layers ← new_layers reserve quant_capacity max_seq_len n_layers
          ok (record {
            n_layers = n_layers;
            kv_dim = kv_dim;
            max_seq_len = max_seq_len;
            layers = layers;
          }))
        else err (gguf_parse no_memory)

  unfoldable pub first_position : List (LayerKv F I8) → ℕ
  first_position [] = 0
  first_position (l ∷ ls) = length l.k_scales

  unfoldable pub position : KvCache F I8 → ℕ
  position cache = first_position cache.layers

  -- The layers that the loop of `validate_append` accepts.
  unfoldable pub synchronized : ℕ → ℕ → List (LayerKv F I8) → Bool
  synchronized position quant_len [] = true
  synchronized position quant_len (l ∷ ls) =
      let rest = synchronized position quant_len ls in
      if not (length l.k_scales == position)
        || (not (length l.v_scales == position)
            || (not (length l.k_quant == quant_len) || not (length l.v_quant == quant_len)))
      then false
      else rest

  -- The checks of `validate_append` once the dimensions agree, at a position.
  validate_at : KvCache F I8 → ℕ → ℕ → Result ℕ
  validate_at cache append_count position = do
    quant_len ← ok_or (checked_mul position cache.kv_dim) cache_overflow
    if synchronized position quant_len cache.layers
        then (do
          end ← ok_or (checked_add position append_count) append_overflow
          if ltb cache.max_seq_len end then err (gguf_parse beyond_max_seq_len) else ok position)
        else err (gguf_parse not_synchronized)

  unfoldable pub validate_append : KvCache F I8 → ℕ → ℕ → ℕ → Result ℕ
  unfolding validate_at
  validate_append cache n_layers kv_dim append_count =
      if not (cache.n_layers == n_layers) || not (length cache.layers == n_layers)
      then err (gguf_parse wrong_layers)
      else if not (cache.kv_dim == kv_dim)
      then err (gguf_parse wrong_kv_dim)
      else validate_at cache append_count (position cache)

  unfoldable pub truncate_layer : ℕ → ℕ → LayerKv F I8 → LayerKv F I8
  truncate_layer quant_len position l = record {
    k_quant = take quant_len l.k_quant;
    k_scales = take position l.k_scales;
    v_quant = take quant_len l.v_quant;
    v_scales = take position l.v_scales;
  }

  -- `rollback` to a checkpoint; its product wraps around.
  unfoldable pub rollback : ℕ → KvCache F I8 → KvCache F I8
  rollback position cache = record {
    n_layers = cache.n_layers;
    kv_dim = cache.kv_dim;
    max_seq_len = cache.max_seq_len;
    layers = map (truncate_layer (position * cache.kv_dim % u64_mod) position) cache.layers;
  }

  unfoldable pub reset : KvCache F I8 → KvCache F I8
  reset cache = record {
    n_layers = cache.n_layers;
    kv_dim = cache.kv_dim;
    max_seq_len = cache.max_seq_len;
    layers = map (λ l. empty_layer) cache.layers;
  }

  abbrev pub with_layers : KvCache F I8 → List (LayerKv F I8) → KvCache F I8
  with_layers cache layers = record {
    n_layers = cache.n_layers;
    kv_dim = cache.kv_dim;
    max_seq_len = cache.max_seq_len;
    layers = layers;
  }

-- `size_of::<f32>()`
abbrev f32_bytes : ℕ
f32_bytes = 4

unfoldable pub resident_bytes_of : {F I8 : Type 0} → List (LayerKv F I8) → ℕ
resident_bytes_of [] = 0
resident_bytes_of (l ∷ ls) =
    length l.k_quant
    + length l.v_quant
    + (length l.k_scales + length l.v_scales) * f32_bytes
    + resident_bytes_of ls

unfoldable pub resident_bytes : {F I8 : Type 0} → KvCache F I8 → ℕ
resident_bytes cache = resident_bytes_of cache.layers

module _ {F I8 : Type 0} (floats : Floats F I8) where
  unfoldable pub append_layer : List F → List F → LayerKv F I8 → LayerKv F I8
  append_layer k v l = record {
    k_quant = (append_quantised floats k l.k_quant l.k_scales).0;
    k_scales = (append_quantised floats k l.k_quant l.k_scales).1;
    v_quant = (append_quantised floats v l.v_quant l.v_scales).0;
    v_scales = (append_quantised floats v l.v_quant l.v_scales).1;
  }

  unfoldable pub append_at :
      KvCache F I8 → ℕ → List F → List F → LayerKv F I8 → Result (KvCache F I8)
  append_at cache layer_idx k v l =
      if leb cache.max_seq_len (length l.k_scales)
      then err (gguf_parse layer_full)
      else ok (with_layers cache (set cache.layers layer_idx (append_layer k v l)))

  unfoldable pub append : KvCache F I8 → ℕ → List F → List F → Option (Result (KvCache F I8))
  append cache layer_idx k v =
      if leb cache.n_layers layer_idx
      then some (err (gguf_parse layer_range))
      else if not (length k == cache.kv_dim) || not (length v == cache.kv_dim)
      then some (err (gguf_parse vector_length))
      else (elim (get_elem? cache.layers layer_idx) [
        | none ↦ none
        | some l ↦ some (append_at cache layer_idx k v l)
      ])
