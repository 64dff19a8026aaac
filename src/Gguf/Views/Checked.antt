-- ===== src/Gguf/Views/Checked.antt =====
-- What a round of the loop over the tensor infos in `GgufFile::parse` has checked about its view.
use project_willamette.Prelude.{
  ℕ, zero, suc, ◌+◌, ◌≤◌, ◌≡◌, refl, ap, ◌∙◌, arith, false, Option, none, some, List, [], ◌∷◌,
  length, ltb, if◌then◌else◌, checked_add, checked_add-some, get_elem?,
}
use project_willamette.Gguf.Result.{
  ok, err, ok_or, ◌>>=◌, >>=-eq-ok, ok_or-eq-ok, early-eq-ok, check-eq-ok, gguf_parse,
  tensor_out_of_bounds, overlap, offset_overflow, end_overflow,
}
use project_willamette.Gguf.Types.{GgmlType}
use project_willamette.Gguf.Lengths.{compute_tensor_byte_len}
use project_willamette.Gguf.Header.{RawTensorInfo}
use project_willamette.Gguf.Views.{
  place_view, TensorView, slice, shares_offset, next_offset, absolute_next, known_length,
  passes_next, is_i2s, scale_block, scale_block_bytes, build_view, build_views,
}

-- The bytes that a tensor takes in the file, the scale block of an I2_S tensor included.
abbrev pub scale_bytes : GgmlType → ℕ
scale_bytes t = if is_i2s t then scale_block_bytes else 0

abbrev pub footprint : TensorView → ℕ
footprint v = v.byte_len + scale_bytes v.ggml_type

-- What one round has checked about its view.
pub record IsChecked (bytes : List ℕ) (start : ℕ) (offsets : List ℕ) (index : ℕ)
    (info : RawTensorInfo) (v : TensorView) : Type 0 where
  pub at : v.offset ≡ start + info.relative_offset
  pub shape_eq : v.shape ≡ info.shape
  pub type_eq : v.ggml_type ≡ info.ggml_type
  pub len : compute_tensor_byte_len info.shape info.ggml_type ≡ ok (some v.byte_len)
  pub inside : v.offset + footprint v ≤ length bytes
  pub content : v.bytes ≡ slice bytes v.offset (v.offset + v.byte_len)
  pub alone : shares_offset 0 index info.relative_offset offsets ≡ false
  pub before_next :
      (o : ℕ)
      → next_offset info.relative_offset offsets ≡ some o
      → v.offset + footprint v ≤ start + o

known-eq : (len : Option ℕ) (n : ℕ) → known_length len ≡ ok n → len ≡ some n
unfolding known_length
known-eq none n h = cc
known-eq (some m) n h = ground arith

absolute-eq :
    (start : ℕ) (o : Option ℕ) (next : Option ℕ) (k : ℕ)
    → absolute_next start o ≡ ok next
    → o ≡ some k
    → next ≡ some (start + k)
unfolding absolute_next checked_add
absolute-eq start none next k h e = cc
absolute-eq start (some o) next k h e = ground arith

-- A successful `scale_block` keeps within the file and before the next tensor.
scale_block_fits :
    (bytes : List ℕ) (next : Option ℕ) (end : ℕ) (t : GgmlType) (scale : Option (List ℕ))
    → scale_block bytes next end t ≡ ok scale
    → end ≤ length bytes
    → passes_next next end ≡ false
    → (end + scale_bytes t ≤ length bytes) × (passes_next next (end + scale_bytes t) ≡ false)
unfolding scale_block passes_next checked_add
scale_block_fits bytes none end t scale h e p = ground arith
scale_block_fits bytes (some n) end t scale h e p = ground arith

-- The same for the part of a round that makes the view.
record IsPlaced (bytes : List ℕ) (next : Option ℕ) (info : RawTensorInfo) (abs byte_len : ℕ)
    (v : TensorView) : Type 0 where
  at : v.offset ≡ abs
  shape_eq : v.shape ≡ info.shape
  type_eq : v.ggml_type ≡ info.ggml_type
  len : v.byte_len ≡ byte_len
  inside : v.offset + footprint v ≤ length bytes
  content : v.bytes ≡ slice bytes v.offset (v.offset + v.byte_len)
  clear : passes_next next (v.offset + footprint v) ≡ false

pub ok-injective {ℓ} : {A : Type ℓ} {a b : A} → ok a ≡ ok b → b ≡ a
ok-injective h = cc

module _ (bytes : List ℕ) (next : Option ℕ) (info : RawTensorInfo) (abs byte_len : ℕ)
    (v : TensorView) where
  abbrev made : ℕ → Option (List ℕ) → TensorView
  made end scale = record {
    name = info.name;
    shape = info.shape;
    ggml_type = info.ggml_type;
    offset = abs;
    byte_len = byte_len;
    bytes = slice bytes abs end;
    scale_data = scale;
  }

  IsPlaced-view :
      (end : ℕ) (scale : Option (List ℕ))
      → end ≡ abs + byte_len
      → (end + scale_bytes info.ggml_type ≤ length bytes)
        × (passes_next next (end + scale_bytes info.ggml_type) ≡ false)
      → v ≡ made end scale
      → IsPlaced bytes next info abs byte_len v
  IsPlaced-view end scale e (within, clear) v_eq =
      let total : abs + (byte_len + scale_bytes info.ggml_type) ≡ end + scale_bytes info.ggml_type =
        omega arith in
      rw v_eq (record {
        at = refl;
        shape_eq = refl;
        type_eq = refl;
        len = refl;
        inside = omega arith;
        content = ap (slice bytes abs) e;
        clear = rw total clear;
      })

  end_view :
      (end : ℕ)
      → end ≡ abs + byte_len
      → (if ltb (length bytes) end
          then err (tensor_out_of_bounds abs end (length bytes))
          else if passes_next next end
          then err (gguf_parse overlap)
          else (do scale ← scale_block bytes next end info.ggml_type; ok (made end scale)))
        ≡ ok v
      → IsPlaced bytes next info abs byte_len v
  end_view end e h =
      let (inside, h1) =
        early-eq-ok (ltb (length bytes) end) (tensor_out_of_bounds abs end (length bytes)) _ v h in
      let (clear, h2) = early-eq-ok (passes_next next end) (gguf_parse overlap) _ v h1 in
      let (scale, scale_ok, h3) =
        >>=-eq-ok (scale_block bytes next end info.ggml_type) (λ s. ok (made end s)) h2 in
      IsPlaced-view end scale e
        (scale_block_fits bytes next end info.ggml_type scale scale_ok (ground arith) clear)
        (ok-injective h3)

  place_view-IsPlaced :
      place_view bytes next info abs byte_len ≡ ok v → IsPlaced bytes next info abs byte_len v
  unfolding place_view
  place_view-IsPlaced h =
      let (end, end_ok, h1) = >>=-eq-ok (ok_or (checked_add abs byte_len) end_overflow) _ h in
      end_view end (checked_add-some abs byte_len end (ok_or-eq-ok _ end_overflow end end_ok)).0 h1

  IsChecked-view :
      (start : ℕ) (offsets : List ℕ) (index : ℕ)
      → abs ≡ start + info.relative_offset
      → shares_offset 0 index info.relative_offset offsets ≡ false
      → absolute_next start (next_offset info.relative_offset offsets) ≡ ok next
      → compute_tensor_byte_len info.shape info.ggml_type ≡ ok (some byte_len)
      → place_view bytes next info abs byte_len ≡ ok v
      → IsChecked bytes start offsets index info v
  unfolding passes_next
  IsChecked-view start offsets index at alone next_ok len h =
      let p = place_view-IsPlaced h in
      record {
        at = p.at ∙ at;
        shape_eq = p.shape_eq;
        type_eq = p.type_eq;
        len = rw p.len len;
        inside = p.inside;
        content = p.content;
        alone = alone;
        before_next = λ o e. ground (
          arith,
          p.clear,
          absolute-eq start (next_offset info.relative_offset offsets) next o next_ok e,
        );
      }

build_view-IsChecked :
    (bytes : List ℕ) (start : ℕ) (offsets : List ℕ) (index : ℕ) (info : RawTensorInfo)
    (v : TensorView)
    → build_view bytes start offsets index info ≡ ok v
    → IsChecked bytes start offsets index info v
unfolding build_view
build_view-IsChecked bytes start offsets index info v h =
    let (abs, abs_ok, h1) =
      >>=-eq-ok (ok_or (checked_add start info.relative_offset) offset_overflow) _ h in
    let (alone, h2) = check-eq-ok (shares_offset 0 index info.relative_offset offsets) _ _ v h1 in
    let (next, next_ok, h3) =
      >>=-eq-ok (absolute_next start (next_offset info.relative_offset offsets)) _ h2 in
    let (len, len_ok, h4) = >>=-eq-ok (compute_tensor_byte_len info.shape info.ggml_type) _ h3 in
    let (byte_len, known, h5) = >>=-eq-ok (known_length len) _ h4 in
    IsChecked-view bytes next info abs byte_len v start offsets index
      (checked_add-some start info.relative_offset abs (ok_or-eq-ok _ offset_overflow abs abs_ok)).0
      alone next_ok (len_ok ∙ ap ok (known-eq len byte_len known)) h5

build_views_cons :
    (bytes : List ℕ) (start : ℕ) (offsets : List ℕ) (index : ℕ) (info : RawTensorInfo)
    (infos : List RawTensorInfo) (vs : List TensorView)
    → build_views bytes start offsets index (info ∷ infos) ≡ ok vs
    → (w : TensorView) × (ws : List TensorView) × (build_view bytes start offsets index info ≡ ok w)
      × (build_views bytes start offsets (index + 1) infos ≡ ok ws)
      × (vs ≡ w ∷ ws)
unfolding build_views
build_views_cons bytes start offsets index info infos vs h =
    let (w, w_ok, h1) = >>=-eq-ok (build_view bytes start offsets index info) _ h in
    let (ws, ws_ok, h2) =
      >>=-eq-ok (build_views bytes start offsets (index + 1) infos) (λ ws. ok (w ∷ ws)) h1 in
    (w, ws, w_ok, ws_ok, ok-injective h2)

get-cons-zero {ℓ} :
    {A : Type ℓ} (vs ws : List A) (w v : A) → vs ≡ w ∷ ws → get_elem? vs 0 ≡ some v → w ≡ v
get-cons-zero [] ws w v p e = cc
get-cons-zero (x ∷ xs) ws w v p e = cc

get-cons-suc {ℓ} :
    {A : Type ℓ} (vs ws : List A) (w v : A) (j : ℕ)
    → vs ≡ w ∷ ws
    → get_elem? vs (suc j) ≡ some v
    → get_elem? ws j ≡ some v
get-cons-suc [] ws w v j p e = cc
get-cons-suc (x ∷ xs) ws w v j p e = cc

-- Each view comes from the entry of the directory at its index.
pub build_views-get :
    (bytes : List ℕ) (start : ℕ) (offsets : List ℕ) (index : ℕ) (infos : List RawTensorInfo)
    (vs : List TensorView) (j : ℕ) (v : TensorView)
    → build_views bytes start offsets index infos ≡ ok vs
    → get_elem? vs j ≡ some v
    → (info : RawTensorInfo) × (get_elem? infos j ≡ some info)
      × IsChecked bytes start offsets (index + j) info v
build_views-get bytes start offsets index [] vs j v h e = unfold build_views in cc
build_views-get bytes start offsets index (info ∷ infos) vs zero v h e =
    let (w, ws, w_ok, ws_ok, vs_eq) = build_views_cons bytes start offsets index info infos vs h in
    let same : w ≡ v = get-cons-zero vs ws w v vs_eq e in
    let at : index + 0 ≡ index = omega arith in
    (info, refl, rw (at, ← same) (build_view-IsChecked bytes start offsets index info w w_ok))
build_views-get bytes start offsets index (info ∷ infos) vs (suc j) v h e =
    let (w, ws, w_ok, ws_ok, vs_eq) = build_views_cons bytes start offsets index info infos vs h in
    let (i, at, checked) =
      build_views-get bytes start offsets (index + 1) infos ws j v ws_ok
        (get-cons-suc vs ws w v j vs_eq e) in
    let shift : index + suc j ≡ index + 1 + j = omega arith in (i, at, rw shift checked)
