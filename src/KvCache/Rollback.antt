-- ===== src/KvCache/Rollback.antt =====
-- `checkpoint` and `rollback` of src/model/kv_cache.rs around any appends, failed ones included.
use project_willamette.Prelude.{
  ℕ, zero, suc, ◌*◌, ◌%◌, ◌≤◌, ◌<◌, ◌≡◌, refl, ap, ◌∙◌, arith, false, not, ◌||◌, Option, none, some,
  List, [], ◌∷◌, ◌++◌, map, length, take, inl, inr, get_elem?, set, leb, ◌==◌, u64_mod, All,
  length-append, length-set, get_elem?-lt, Bool-cases, All-get_elem?, take_all,
}
use native.Mathlib.Nat.{mul-le-mul_right, mod-eq_of_lt}
use project_willamette.Gguf.Result.{Result, ok, err}
use project_willamette.KvCache.State.{Floats, LayerKv, KvCache, quantised, append_quantised}
use project_willamette.KvCache.Cache.{
  append_layer, append_at, append, rollback, truncate_layer, with_layers, position, first_position,
}
use project_willamette.KvCache.Valid.{LayerValid, IsValid, All-set, append_layer-Valid}

-- All layers hold as many positions.
abbrev pub IsSynchronized : {F I8 : Type 0} → KvCache F I8 → Type 0
IsSynchronized cache = All (λ l. length l.k_scales ≡ position cache) cache.layers

-- A call of `append`: the cache afterwards, the old one if the call failed; `none` is a panic.
abbrev after :
    {F I8 : Type 0} → KvCache F I8 → Option (Result (KvCache F I8)) → Option (KvCache F I8)
after cache none = none
after cache (some (ok c)) = some c
after cache (some (err e)) = some cache

unfoldable pub appends :
    {F I8 : Type 0}
    → Floats F I8
    → KvCache F I8
    → List (ℕ × List F × List F)
    → Option (KvCache F I8)
appends floats cache [] = some cache
appends floats cache ((i, k, v) ∷ calls) = elim (after cache (append floats cache i k v)) [
  | none ↦ none
  | some c ↦ appends floats c calls
]

take_short {ℓ} :
    {A : Type ℓ} (n : ℕ) (xs ys : List A) → n ≤ length xs → take n (xs ++ ys) ≡ take n xs
take_short zero xs ys h = refl
take_short (suc n) [] ys h = elim h [ ]
take_short (suc n) (x ∷ xs) ys h = ap (λ t. x ∷ t) (take_short n xs ys (omega arith))

map-set {ℓ κ} :
    {A : Type ℓ} {B : Type κ} (f : A → B) (xs : List A) (i : ℕ) (a b : A)
    → get_elem? xs i ≡ some b
    → f a ≡ f b
    → map f (set xs i a) ≡ map f xs
map-set f [] i a b e h = refl
map-set f (x ∷ xs) zero a b e h = ap (λ t. t ∷ map f xs) (h ∙ ap f (cc))
map-set f (x ∷ xs) (suc i) a b e h = ap (λ t. f x ∷ t) (map-set f xs i a b e h)

-- What holds between a cache at `p` positions and one that appends made of it.
record Extends {F I8 : Type 0} (p : ℕ) (c c' : KvCache F I8) : Type 0 where
  n_eq : c'.n_layers ≡ c.n_layers
  d_eq : c'.kv_dim ≡ c.kv_dim
  m_eq : c'.max_seq_len ≡ c.max_seq_len
  valid : IsValid c'
  back : map (truncate_layer (p * c'.kv_dim) p) c'.layers ≡ c.layers
  deep : All (λ (l : LayerKv F I8). p ≤ length l.k_scales) c'.layers

not-leb : (a b : ℕ) → leb a b ≡ false → b < a
not-leb a b h = ground arith

module _ {F I8 : Type 0} (floats : Floats F I8) where
  truncate-append :
      (p kv_dim m : ℕ) (k v : List F) (l : LayerKv F I8)
      → LayerValid kv_dim m l
      → p ≤ length l.k_scales
      → truncate_layer (p * kv_dim) p (append_layer floats k v l) ≡ truncate_layer (p * kv_dim) p l
  unfolding truncate_layer append_layer append_quantised
  truncate-append p kv_dim m k v l h le =
      let quant : p * kv_dim ≤ length l.k_scales * kv_dim = mul-le-mul_right kv_dim le in
      let a =
        take_short (p * kv_dim) l.k_quant (quantised floats k).0 (omega (arith, quant, h.k_len)) in
      let b = take_short p l.k_scales ((quantised floats k).1 ∷ []) le in
      let c =
        take_short (p * kv_dim) l.v_quant (quantised floats v).0 (omega (arith, quant, h.v_len)) in
      let d =
        take_short p l.v_scales ((quantised floats v).1 ∷ []) (omega (arith, le, h.v_scales_len)) in
      rw (a, b, c, d) refl

  deeper :
      (p : ℕ) (k v : List F) (l : LayerKv F I8)
      → p ≤ length l.k_scales
      → p ≤ length (append_layer floats k v l).k_scales
  unfolding append_layer append_quantised
  deeper p k v l h = omega (arith, length-append l.k_scales ((quantised floats k).1 ∷ []))

  -- The whole step: a layer that has room, and vectors of the right length.
  Extends-append :
      (p : ℕ) (c c' : KvCache F I8) (i : ℕ) (k v : List F) (l : LayerKv F I8)
      → Extends p c c'
      → get_elem? c'.layers i ≡ some l
      → length k ≡ c'.kv_dim
      → length v ≡ c'.kv_dim
      → length l.k_scales < c'.max_seq_len
      → Extends p c (with_layers c' (set c'.layers i (append_layer floats k v l)))
  Extends-append p c c' i k v l h at k_len v_len room =
      let here =
        All-get_elem? (LayerValid c'.kv_dim c'.max_seq_len) c'.layers i l h.valid.each at in
      let far =
        All-get_elem? (λ (l : LayerKv F I8). p ≤ length l.k_scales) c'.layers i l h.deep at in
      record {
        n_eq = h.n_eq;
        d_eq = h.d_eq;
        m_eq = h.m_eq;
        valid = record {
          count = length-set c'.layers i _ ∙ h.valid.count;
          no_overflow = h.valid.no_overflow;
          each =
              All-set _ c'.layers i _ h.valid.each
                (append_layer-Valid floats c'.kv_dim c'.max_seq_len k v l here k_len v_len room);
        };
        back =
            map-set _ c'.layers i _ l at (truncate-append p c'.kv_dim c'.max_seq_len k v l here far)
            ∙ h.back;
        deep = All-set _ c'.layers i _ h.deep (deeper p k v l far);
      }

  after-append :
      (p : ℕ) (c c' : KvCache F I8) (i : ℕ) (k v : List F)
      → Extends p c c'
      → (c'' : KvCache F I8) × (after c' (append floats c' i k v) ≡ some c'') × Extends p c c''
  unfolding append append_at
  after-append p c c' i k v h = elim (Bool-cases (leb c'.n_layers i)) [
    | inl out ↦ rw out (c', refl, h)
    | inr within ↦ elim (Bool-cases (not (length k == c'.kv_dim) || not (length v == c'.kv_dim))) [
      | inl wrong ↦ rw (within, wrong) (c', refl, h)
      | inr right ↦
          let (l, at) =
            get_elem?-lt c'.layers i (omega (arith, h.valid.count, not-leb c'.n_layers i within)) in
          elim (Bool-cases (leb c'.max_seq_len (length l.k_scales))) [
            | inl full ↦ rw (within, right, at, full) (c', refl, h)
            | inr room ↦
                rw (within, right, at, room)
                  (
                    _,
                    refl,
                    Extends-append p c c' i k v l h at (ground arith) (ground arith)
                        (not-leb _ _ room),
                  )
          ]
    ]
  ]

  appends-Extends :
      (p : ℕ) (c c' : KvCache F I8) (calls : List (ℕ × List F × List F))
      → Extends p c c'
      → (c'' : KvCache F I8) × (appends floats c' calls ≡ some c'') × Extends p c c''
  unfolding appends
  appends-Extends p c c' [] h = (c', refl, h)
  appends-Extends p c c' ((i, k, v) ∷ calls) h =
      let (d, d_eq, d_h) = after-append p c c' i k v h in
      rw (appends, d_eq) (appends-Extends p c d calls d_h)

module _ {F I8 : Type 0} where
  kept :
      (q p : ℕ) (l : LayerKv F I8) (ls ms : List (LayerKv F I8))
      → take q l.k_quant ≡ l.k_quant
      → take p l.k_scales ≡ l.k_scales
      → take q l.v_quant ≡ l.v_quant
      → take p l.v_scales ≡ l.v_scales
      → ls ≡ ms
      → truncate_layer q p l ∷ ls ≡ l ∷ ms
  unfolding truncate_layer
  kept q p l ls ms a b c d e = rw (a, b, c, d, e) refl

  truncate_whole :
      (kv_dim m : ℕ) (p : ℕ) (ls : List (LayerKv F I8))
      → All (LayerValid kv_dim m) ls
      → All (λ (l : LayerKv F I8). length l.k_scales ≡ p) ls
      → (map (truncate_layer (p * kv_dim) p) ls ≡ ls)
        × All (λ (l : LayerKv F I8). p ≤ length l.k_scales) ls
  truncate_whole kv_dim m p [] valid same = (refl, tt)
  truncate_whole kv_dim m p (l ∷ ls) valid same =
      let n : length l.k_scales ≡ p = same.0 in
      let quant : length l.k_scales * kv_dim ≡ p * kv_dim = ap (λ n. n * kv_dim) n in
      let a = take_all (p * kv_dim) l.k_quant (omega (arith, quant, valid.0.k_len)) in
      let b = take_all p l.k_scales (omega (arith, n)) in
      let c = take_all (p * kv_dim) l.v_quant (omega (arith, quant, valid.0.v_len)) in
      let d = take_all p l.v_scales (omega (arith, n, valid.0.v_scales_len)) in
      let (rest, deep) = truncate_whole kv_dim m p ls valid.1 same.1 in
      (
        kept (p * kv_dim) p l (map (truncate_layer (p * kv_dim) p) ls) ls a b c d rest,
        (omega (arith, n), deep),
      )

  first-le :
      (kv_dim m : ℕ) (ls : List (LayerKv F I8))
      → All (LayerValid kv_dim m) ls
      → first_position ls ≤ m
  unfolding first_position
  first-le kv_dim m [] h = omega arith
  first-le kv_dim m (l ∷ ls) h = h.0.fits

  position-le : (c : KvCache F I8) → IsValid c → position c ≤ c.max_seq_len
  unfolding position
  position-le c h = first-le c.kv_dim c.max_seq_len c.layers h.each

  rollback-Extends :
      (p : ℕ) (c c' : KvCache F I8) → Extends p c c' → p ≤ c.max_seq_len → rollback p c' ≡ c
  unfolding rollback
  rollback-Extends p c c' h le =
      let bound : p * c'.kv_dim ≤ c'.max_seq_len * c'.kv_dim =
        mul-le-mul_right c'.kv_dim (omega (arith, h.m_eq)) in
      let exact : p * c'.kv_dim % u64_mod ≡ p * c'.kv_dim =
        mod-eq_of_lt (omega (arith, bound, h.valid.no_overflow)) in
      rw (exact, h.back, h.n_eq, h.d_eq, h.m_eq) refl

  -- On a valid cache whose layers are in step, rolling back to a checkpoint undoes every append made
  -- after it, on whatever layers and whether they failed or not; none of them panics.
  pub rollback-appends :
      (floats : Floats F I8) (c : KvCache F I8) (calls : List (ℕ × List F × List F))
      → IsValid c
      → IsSynchronized c
      → (c' : KvCache F I8) × (appends floats c calls ≡ some c') × (rollback (position c) c' ≡ c)
  rollback-appends floats c calls valid same =
      let (back, deep) =
        truncate_whole c.kv_dim c.max_seq_len (position c) c.layers valid.each same in
      let (c', ran, h) = appends-Extends floats (position c) c c calls (record {
        n_eq = refl;
        d_eq = refl;
        m_eq = refl;
        valid = valid;
        back = back;
        deep = deep;
      }) in
      (c', ran, rollback-Extends (position c) c c' h (position-le c valid))
