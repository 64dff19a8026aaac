-- ===== src/KvCache/State.antt =====
-- src/model/kv_cache.rs: the buffers of a layer and `append_quantised`. `F` stands for `f32` and
-- `I8` for `i8`; their operations are parameters.
use project_willamette.Prelude.{
  ℕ, Bool, not, ◌||◌, List, [], ◌∷◌, ◌++◌, map, length, replicate, if◌then◌else◌,
}

-- The operations of `f32` that the cache uses.
pub record Floats (F I8 : Type 0) : Type 0 where
  pub zero_f32 : F
  pub one_two_seven : F
  pub zero_i8 : I8
  pub abs : F → F
  pub max : F → F → F
  pub div : F → F → F
  pub mul : F → F → F
  pub equals : F → F → Bool
  pub is_finite : F → Bool
  -- `x.round().clamp(-127.0, 127.0) as i8`
  pub to_i8 : F → I8

pub record LayerKv (F I8 : Type 0) : Type 0 where
  pub k_quant : List I8
  pub k_scales : List F
  pub v_quant : List I8
  pub v_scales : List F

pub record KvCache (F I8 : Type 0) : Type 0 where
  pub n_layers : ℕ
  pub kv_dim : ℕ
  pub max_seq_len : ℕ
  pub layers : List (LayerKv F I8)

module _ {F I8 : Type 0} (floats : Floats F I8) where
  -- `fold(0.0, |m, v| m.max(v.abs()))`, from `m`.
  unfoldable pub absmax_from : F → List F → F
  absmax_from m [] = m
  absmax_from m (v ∷ x) = absmax_from (floats.max m (floats.abs v)) x

  -- The quantised vector and its scale, which `append_quantised` pushes.
  unfoldable pub quantised : List F → List I8 × F
  quantised x =
      let absmax = absmax_from floats.zero_f32 x in
      if floats.equals absmax floats.zero_f32 || not (floats.is_finite absmax)
      then (replicate (length x) floats.zero_i8, floats.zero_f32)
      else (
        map (λ v. floats.to_i8 (floats.mul v (floats.div floats.one_two_seven absmax))) x,
        floats.div absmax floats.one_two_seven,
      )

  unfoldable pub append_quantised : List F → List I8 → List F → List I8 × List F
  append_quantised x out_quant out_scales =
      (out_quant ++ (quantised x).0, out_scales ++ ((quantised x).1 ∷ []))
