-- ===== src/Gguf/Views/Disjoint.antt =====
-- No two views that `parse` returns overlap, and all lie within the file.
use mathlib.Core.Option
use project_willamette.Prelude.{
  ℕ, zero, suc, ◌+◌, ◌-◌, ◌≤◌, ◌<◌, ◌≡◌, ◌≢◌, refl, ap, ◌∙◌, arith, false, ◌⊎◌, inl, inr, Option,
  none, some, List, [], ◌∷◌, length, drop, ltb, if◌then◌else◌, map, get_elem?, Bool-cases, lt→ltb,
  length-take, length-drop,
}
use project_willamette.Gguf.Result.{ok, ok_or, >>=-eq-ok, check-eq-ok}
use project_willamette.Gguf.Lengths.{compute_tensor_byte_len}
use project_willamette.Gguf.Header.{RawTensorInfo, Header}
use project_willamette.Gguf.Views.{
  TensorView, GgufFile, slice, shares_offset, next_offset, lesser, build_views, offsets_of,
  build_file, parse,
}
use project_willamette.Gguf.Header.{read_header}
use project_willamette.Gguf.Views.{align_offset}
use project_willamette.Gguf.Result.{section_overflow}
use project_willamette.Gguf.Views.Checked.{IsChecked, footprint, ok-injective, build_views-get}

shares-false :
    (i index offset : ℕ) (os : List ℕ) (k o : ℕ)
    → shares_offset i index offset os ≡ false
    → get_elem? os k ≡ some o
    → i + k ≢ index
    → o ≢ offset
unfolding shares_offset
shares-false i index offset [] k o h e ne = cc
shares-false i index offset (x ∷ os) zero o h e ne = ground arith
shares-false i index offset (x ∷ os) (suc k) o h e ne =
    shares-false (i + 1) index offset os k o (ground arith) e (λ p. ne (omega arith))

lesser-le : (a : ℕ) (r : Option ℕ) → (n : ℕ) × (lesser a r ≡ some n) × (n ≤ a)
lesser-le a none = (a, refl, omega arith)
lesser-le a (some b) = (if ltb b a then b else a, refl, ground arith)

lesser-le_right : (a b : ℕ) → (n : ℕ) × (lesser a (some b) ≡ some n) × (n ≤ b)
lesser-le_right a b = (if ltb b a then b else a, refl, ground arith)

-- The next offset is no greater than any that is greater than this one.
next_offset-le :
    (offset : ℕ) (os : List ℕ) (k o : ℕ)
    → get_elem? os k ≡ some o
    → offset < o
    → (n : ℕ) × (next_offset offset os ≡ some n) × (n ≤ o)
unfolding next_offset
next_offset-le offset [] k o e lt = cc
next_offset-le offset (x ∷ os) zero o e lt =
    let here : x ≡ o = ground arith in
    rw (lt→ltb offset x (omega arith))
      (let (n, n_eq, le) = lesser-le x (next_offset offset os) in (n, n_eq, omega arith))
next_offset-le offset (x ∷ os) (suc k) o e lt =
    let (m, m_eq, m_le) = next_offset-le offset os k o e lt in
    elim (Bool-cases (ltb offset x)) [
      | inl above ↦
          rw (above, m_eq) (let (n, n_eq, le) = lesser-le_right x m in (n, n_eq, omega arith))
      | inr below ↦ rw below (m, m_eq, m_le)
    ]

get-offsets :
    (infos : List RawTensorInfo) (j : ℕ) (info : RawTensorInfo)
    → get_elem? infos j ≡ some info
    → get_elem? (offsets_of infos) j ≡ some info.relative_offset
get-offsets [] j info e = cc
get-offsets (x ∷ xs) zero info e = ap (Option.map (λ (r : RawTensorInfo). r.relative_offset)) e
get-offsets (x ∷ xs) (suc j) info e = get-offsets xs j info e

-- The directory of a parsed file, and where its data starts.
record Origin (bytes : List ℕ) (g : GgufFile) : Type 0 where
  infos : List RawTensorInfo
  views : build_views bytes g.data_section_start (offsets_of infos) 0 infos ≡ ok g.tensors

build_eq :
    (bytes : List ℕ) (infos : List RawTensorInfo) (start start' : ℕ)
    (views views' : List TensorView)
    → start' ≡ start
    → views' ≡ views
    → build_views bytes start (offsets_of infos) 0 infos ≡ ok views
    → build_views bytes start' (offsets_of infos) 0 infos ≡ ok views'
build_eq bytes infos start start' views views' p q h = rw (p, q) h

build_file-Origin :
    (bytes : List ℕ) (header : Header) (header_end : ℕ) (g : GgufFile)
    → build_file bytes header header_end ≡ ok g
    → Origin bytes g
unfolding build_file
build_file-Origin bytes header header_end g h =
    let (start, start_ok, h1) =
      >>=-eq-ok (ok_or (align_offset header_end header.alignment) section_overflow) _ h in
    let (within, h2) = check-eq-ok _ _ _ g h1 in
    let (views, views_ok, h3) =
      >>=-eq-ok
        (build_views bytes start (offsets_of (map (λ p. p.0) header.infos)) 0
          (map (λ p. p.0) header.infos))
        _ h2 in
    let g_eq = ok-injective h3 in
    record {
      infos = map (λ p. p.0) header.infos;
      views =
          build_eq bytes (map (λ p. p.0) header.infos) start g.data_section_start views g.tensors
            (ap (λ (g : GgufFile). g.data_section_start) g_eq)
            (ap (λ (g : GgufFile). g.tensors) g_eq) views_ok;
    }

parse-Origin : (bytes : List ℕ) (g : GgufFile) → parse bytes ≡ ok g → Origin bytes g
unfolding parse
parse-Origin bytes g h =
    let (read, read_ok, h1) = >>=-eq-ok (read_header (record { rest = bytes; position = 0 })) _ h in
    build_file-Origin bytes read.0 read.1.position g h1

length-slice :
    (bytes : List ℕ) (from n : ℕ)
    → from + n ≤ length bytes
    → length (slice bytes from (from + n)) ≡ n
length-slice bytes from n h =
    omega (arith, length-take (from + n - from) (drop from bytes), length-drop from bytes)

-- Of two infos that share no offset, the lower one ends before the other starts.
lower_first :
    (bytes : List ℕ) (start : ℕ) (offsets : List ℕ) (i j k : ℕ) (a b : RawTensorInfo)
    (v w : TensorView)
    → IsChecked bytes start offsets i a v
    → IsChecked bytes start offsets j b w
    → get_elem? offsets k ≡ some b.relative_offset
    → a.relative_offset < b.relative_offset
    → v.offset + footprint v ≤ w.offset
lower_first bytes start offsets i j k a b v w c d at lt =
    let (n, n_eq, le) = next_offset-le a.relative_offset offsets k b.relative_offset at lt in
    omega (arith, c.before_next n n_eq, d.at)

module _ (bytes : List ℕ) (g : GgufFile) (parsed : parse bytes ≡ ok g) where
  -- If `parse` returns, each tensor lies within the file with its scale block, and its bytes are those of the file at
  -- its offset, as many as its shape and type take.
  pub parse_in_bounds :
      (i : ℕ) (v : TensorView)
      → get_elem? g.tensors i ≡ some v
      → (v.offset + footprint v ≤ length bytes)
        × (v.bytes ≡ slice bytes v.offset (v.offset + v.byte_len))
        × (length v.bytes ≡ v.byte_len)
        × (compute_tensor_byte_len v.shape v.ggml_type ≡ ok (some v.byte_len))
  parse_in_bounds i v at =
      let o = parse-Origin bytes g parsed in
      let (info, _, c) =
        build_views-get bytes g.data_section_start (offsets_of o.infos) 0 o.infos g.tensors i v
          o.views at in
      (
        c.inside,
        c.content,
        ap length c.content ∙ length-slice bytes v.offset v.byte_len (omega (arith, c.inside)),
        rw (c.shape_eq, c.type_eq) c.len,
      )

  -- If `parse` returns, no two tensors share a byte, scale blocks included.
  pub parse_disjoint :
      (i j : ℕ) (v w : TensorView)
      → get_elem? g.tensors i ≡ some v
      → get_elem? g.tensors j ≡ some w
      → i ≢ j
      → (v.offset + footprint v ≤ w.offset) ⊎ (w.offset + footprint w ≤ v.offset)
  parse_disjoint i j v w at_i at_j ne =
      let o = parse-Origin bytes g parsed in
      let offsets = offsets_of o.infos in
      let (a, a_at, c) =
        build_views-get bytes g.data_section_start offsets 0 o.infos g.tensors i v o.views at_i in
      let (b, b_at, d) =
        build_views-get bytes g.data_section_start offsets 0 o.infos g.tensors j w o.views at_j in
      let apart =
        shares-false 0 (0 + i) a.relative_offset offsets j b.relative_offset c.alone
          (get-offsets o.infos j b b_at) (λ p. ne (omega arith)) in
      elim (Bool-cases (ltb a.relative_offset b.relative_offset)) [
        | inl lt ↦ inl (
            lower_first bytes g.data_section_start offsets (0 + i) (0 + j) j a b v w c d
              (get-offsets o.infos j b b_at) (ground arith))
        | inr ge ↦ inr (
            lower_first bytes g.data_section_start offsets (0 + j) (0 + i) i b a w v d c
              (get-offsets o.infos i a a_at) (ground arith))
      ]
