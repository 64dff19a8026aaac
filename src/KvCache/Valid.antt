-- ===== src/KvCache/Valid.antt =====
-- The invariant of the cache of src/model/kv_cache.rs, and that its operations keep it.
use project_willamette.Prelude.{
  ℕ, zero, suc, ◌+◌, ◌*◌, ◌≤◌, ◌<◌, ◌≡◌, refl, ◌∙◌, arith, Bool, true, false, not, ◌&&◌, ◌||◌, List,
  [], ◌∷◌, ◌++◌, length, length-map, replicate, inl, inr, set, if◌then◌else◌, checked_mul,
  checked_mul-some, u64_mod, All, length-append, length-replicate, Bool-cases,
}
use project_willamette.Gguf.Result.{
  Result, ok, err, ok_or, >>=-eq-ok, ok_or-eq-ok, cache_overflow, no_memory, gguf_parse,
}
use project_willamette.KvCache.State.{
  Floats, LayerKv, KvCache, absmax_from, quantised, append_quantised,
}
use project_willamette.KvCache.Cache.{
  new_layers, try_new, append_layer, empty_layer, position, first_position,
}

-- A layer of a cache: as many scales as positions, `kv_dim` numbers for each, and room for them.
pub record LayerValid {F I8 : Type 0} (kv_dim max_seq_len : ℕ) (l : LayerKv F I8) : Type 0 where
  pub fits : length l.k_scales ≤ max_seq_len
  pub v_scales_len : length l.v_scales ≡ length l.k_scales
  pub k_len : length l.k_quant ≡ length l.k_scales * kv_dim
  pub v_len : length l.v_quant ≡ length l.k_scales * kv_dim

pub record IsValid {F I8 : Type 0} (cache : KvCache F I8) : Type 0 where
  pub count : length cache.layers ≡ cache.n_layers
  pub no_overflow : cache.max_seq_len * cache.kv_dim < u64_mod
  pub each : All (LayerValid cache.kv_dim cache.max_seq_len) cache.layers

pub All-set {ℓ κ} :
    {A : Type ℓ} (P : A → Type κ) (xs : List A) (i : ℕ) (a : A)
    → All P xs
    → P a
    → All P (set xs i a)
All-set P [] i a h p = h
All-set P (x ∷ xs) zero a h p = (p, h.1)
All-set P (x ∷ xs) (suc i) a h p = (h.0, All-set P xs i a h.1 p)

pub All-replicate {ℓ κ} :
    {A : Type ℓ} (P : A → Type κ) (n : ℕ) (a : A) → P a → All P (replicate n a)
All-replicate P zero a p = tt
All-replicate P (suc n) a p = (p, All-replicate P n a p)

else_err :
    {A : Type 0} (b : Bool) (m : Result A) (a : A)
    → (if b then m else err (gguf_parse no_memory)) ≡ ok a
    → (b ≡ true) × (m ≡ ok a)
else_err true m a h = (refl, h)
else_err false m a h = cc

module _ {F I8 : Type 0} where
  new_layers-replicate :
      (reserve : ℕ → Bool) (q m n : ℕ) (layers : List (LayerKv F I8))
      → new_layers reserve q m n ≡ ok layers
      → layers ≡ replicate n empty_layer
  unfolding new_layers
  new_layers-replicate reserve q m zero layers h = cc
  new_layers-replicate reserve q m (suc n) layers h = elim (Bool-cases (reserve q && reserve m)) [
    | inl e ↦
        let (ls, ls_ok, h1) =
          >>=-eq-ok (new_layers reserve q m n) (λ ls. ok (empty_layer ∷ ls)) (rw e at h) in
        cc (h1, new_layers-replicate reserve q m n ls ls_ok)
    | inr e ↦ cc (rw e at h)
  ]

  position-replicate :
      (n : ℕ) (l : LayerKv F I8) → length l.k_scales ≡ 0 → first_position (replicate n l) ≡ 0
  unfolding first_position
  position-replicate zero l e = refl
  position-replicate (suc n) l e = e

  new_cache :
      (n d m : ℕ) (layers : List (LayerKv F I8)) (cache : KvCache F I8)
      → layers ≡ replicate n empty_layer
      → m * d < u64_mod
      → ok (record { n_layers = n; kv_dim = d; max_seq_len = m; layers = layers }) ≡ ok cache
      → IsValid cache × (position cache ≡ 0)
  unfolding position
  new_cache n d m layers cache layers_eq small h =
      let e : cache
          ≡ record { n_layers = n; kv_dim = d; max_seq_len = m; layers = replicate n empty_layer } =
        cc in
      rw e (
        record {
          count = length-replicate n empty_layer;
          no_overflow = small;
          each = All-replicate (LayerValid d m) n empty_layer (record {
            fits = omega arith;
            v_scales_len = refl;
            k_len = omega arith;
            v_len = omega arith;
          });
        },
        position-replicate n empty_layer refl,
      )

  -- A cache that `try_new` returns satisfies the invariant and holds no position.
  pub try_new-IsValid :
      (reserve : ℕ → Bool) (n_layers kv_dim max_seq_len : ℕ) (cache : KvCache F I8)
      → try_new reserve n_layers kv_dim max_seq_len ≡ ok cache
      → IsValid cache × (position cache ≡ 0)
  unfolding try_new position
  try_new-IsValid reserve n_layers kv_dim max_seq_len cache h =
      let (q, q_ok, h1) = >>=-eq-ok (ok_or (checked_mul max_seq_len kv_dim) cache_overflow) _ h in
      let (granted, h2) = else_err (reserve n_layers) _ cache h1 in
      let (layers, layers_ok, h3) = >>=-eq-ok (new_layers reserve q max_seq_len n_layers) _ h2 in
      let (q_eq, small) =
        checked_mul-some max_seq_len kv_dim q (ok_or-eq-ok _ cache_overflow q q_ok) in
      new_cache n_layers kv_dim max_seq_len layers cache
        (new_layers-replicate reserve q max_seq_len n_layers layers layers_ok)
        (omega (arith, q_eq, small)) h3

module _ {F I8 : Type 0} (floats : Floats F I8) where
  length-quantised : (x : List F) → length (quantised floats x).0 ≡ length x
  unfolding quantised
  length-quantised x =
      let absmax = absmax_from floats floats.zero_f32 x in
      elim (Bool-cases (floats.equals absmax floats.zero_f32 || not (floats.is_finite absmax))) [
        | inl e ↦ rw e (length-replicate (length x) floats.zero_i8)
        | inr e ↦ rw e (length-map _ x)
      ]

  grown :
      (xs ys : List I8) (scales : List F) (s : F) (n d : ℕ)
      → length scales ≡ n
      → length xs ≡ n * d
      → length ys ≡ d
      → length (xs ++ ys) ≡ length (scales ++ (s ∷ [])) * d
  grown xs ys scales s n d e f g =
      let one : length (scales ++ (s ∷ [])) ≡ n + 1 =
        omega (arith, length-append scales (s ∷ [])) in
      let step : (n + 1) * d ≡ n * d + d = omega arith in
      rw one (omega (arith, length-append xs ys))

  pub append_layer-Valid :
      (kv_dim m : ℕ) (k v : List F) (l : LayerKv F I8)
      → LayerValid kv_dim m l
      → length k ≡ kv_dim
      → length v ≡ kv_dim
      → length l.k_scales < m
      → LayerValid kv_dim m (append_layer floats k v l)
  unfolding append_layer append_quantised
  append_layer-Valid kv_dim m k v l h k_len v_len room = record {
    fits = omega (arith, length-append l.k_scales ((quantised floats k).1 ∷ []));
    v_scales_len = omega (
      arith,
      length-append l.k_scales ((quantised floats k).1 ∷ []),
      length-append l.v_scales ((quantised floats v).1 ∷ []),
      h.v_scales_len,
    );
    k_len =
        grown l.k_quant _ l.k_scales _ (length l.k_scales) kv_dim refl h.k_len
          (length-quantised k ∙ k_len);
    v_len =
        grown l.v_quant _ l.k_scales _ (length l.k_scales) kv_dim refl h.v_len
          (length-quantised v ∙ v_len);
  }
