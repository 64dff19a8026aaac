-- ===== src/Config/Entries.antt =====
-- What the readers of entries in src/model/config.rs promise: required_u32, optional_u32, required_f32,
-- optional_f32 and tokenizer_vocab_size.
use project_willamette.Prelude.{
  ℕ, ◌^◌, ◌<◌, ◌≡◌, ◌⊎◌, inl, inr, refl, sym, ap, ◌∙◌, arith, Option, none, some, List, length,
  Option-cases,
}
use project_willamette.Gguf.Result.{ok, >>=-eq-ok}
use project_willamette.Gguf.Values.{GgufValue, as_u64}
use project_willamette.Gguf.Header.{Metadata, lookup_key}
use project_willamette.Gguf.Views.Checked.{ok-injective}
use project_willamette.Config.Keys.{tokens_key}
use project_willamette.Config.Read.{
  typed, ok_or_missing, as_u32, as_f32, as_string_array, required_u32, required_f32, optional_u32,
  optional_f32, unwrap_or, tokenizer_vocab_size,
}

-- The metadata holds a number under a key, as an unsigned integer of 32 bits.
abbrev pub Holds : Metadata → List ℕ → ℕ → Type 0
Holds meta name v = (typed as_u64 name meta ≡ some v) × (v < 2 ^ 32)

-- The metadata holds the number under the key, or has no such key and the number is the given one.
abbrev pub HoldsOr : Metadata → List ℕ → ℕ → ℕ → Type 0
HoldsOr meta name d v = ((lookup_key name meta ≡ none) × (v ≡ d)) ⊎ Holds meta name v

-- As `Holds` and `HoldsOr`, for the word of an `f32`.
abbrev pub HoldsFloat : (ℕ → ℕ) → Metadata → List ℕ → ℕ → Type 0
HoldsFloat narrow meta name v = typed (as_f32 narrow) name meta ≡ some v

abbrev pub HoldsFloatOr : (ℕ → ℕ) → Metadata → List ℕ → ℕ → ℕ → Type 0
HoldsFloatOr narrow meta name d v =
    ((lookup_key name meta ≡ none) × (v ≡ d)) ⊎ HoldsFloat narrow meta name v

-- The number of the tokens that the metadata lists.
abbrev pub CountsTokens : Metadata → ℕ → Type 0
CountsTokens meta v =
    (tokens : List (List ℕ)) × (typed as_string_array tokens_key meta ≡ some tokens)
    × (v ≡ length tokens)
    × (v < 2 ^ 32)

as_u32-ok : (w v : ℕ) → as_u32 w ≡ ok v → (w ≡ v) × (v < 2 ^ 32)
unfolding as_u32
as_u32-ok w v h = ground arith

ok_or_missing-ok :
    {A : Type 0} (o : Option A) (name : List ℕ) (a : A) → ok_or_missing o name ≡ ok a → o ≡ some a
unfolding ok_or_missing
ok_or_missing-ok none name a h = cc
ok_or_missing-ok (some b) name a h = ap some (sym (ok-injective h))

typed-found :
    {A : Type 0} (convert : GgufValue → Option A) (name : List ℕ) (meta : Metadata)
    (value : GgufValue)
    → lookup_key name meta ≡ some value
    → typed convert name meta ≡ convert value
unfolding typed
typed-found convert name meta value found = rw found refl

pub required_u32-Holds :
    (meta : Metadata) (name : List ℕ) (v : ℕ) → required_u32 meta name ≡ ok v → Holds meta name v
unfolding required_u32
required_u32-Holds meta name v h =
    let (w, found, cast) = >>=-eq-ok (ok_or_missing (typed as_u64 name meta) name) _ h in
    let (same, fits) = as_u32-ok w v cast in
    (ok_or_missing-ok (typed as_u64 name meta) name w found ∙ ap some same, fits)

pub required_f32-HoldsFloat :
    (narrow : ℕ → ℕ) (meta : Metadata) (name : List ℕ) (v : ℕ)
    → required_f32 narrow meta name ≡ ok v
    → HoldsFloat narrow meta name v
unfolding required_f32
required_f32-HoldsFloat narrow meta name v h =
    ok_or_missing-ok (typed (as_f32 narrow) name meta) name v h

pub optional_u32-HoldsOr :
    (meta : Metadata) (name : List ℕ) (d : ℕ) (o : Option ℕ)
    → optional_u32 meta name ≡ ok o
    → HoldsOr meta name d (unwrap_or o d)
unfolding optional_u32 unwrap_or
optional_u32-HoldsOr meta name d o h = elim (Option-cases (lookup_key name meta)) [
  | inl missing ↦
      let none_read : optional_u32 meta name ≡ ok none = rw (optional_u32, missing) refl in
      inl (missing, ap (λ r. unwrap_or r d) (ok-injective (sym none_read ∙ h)))
  | inr (value, found) ↦
      let (v, v_ok, h1) =
        >>=-eq-ok (ok_or_missing (as_u64 value) name) _ (rw (optional_u32, found) at h) in
      let (w, w_ok, h2) = >>=-eq-ok (as_u32 v) _ h1 in
      let (same, fits) = as_u32-ok v w w_ok in
      let chosen : w ≡ unwrap_or o d = sym (ap (λ r. unwrap_or r d) (ok-injective h2)) in
      inr (
        typed-found as_u64 name meta value found
            ∙ ok_or_missing-ok (as_u64 value) name v v_ok
            ∙ ap some (same ∙ chosen),
        omega (arith, fits, chosen),
      )
]

pub optional_f32-HoldsFloatOr :
    (narrow : ℕ → ℕ) (meta : Metadata) (name : List ℕ) (d : ℕ) (o : Option ℕ)
    → optional_f32 narrow meta name ≡ ok o
    → HoldsFloatOr narrow meta name d (unwrap_or o d)
unfolding optional_f32 unwrap_or
optional_f32-HoldsFloatOr narrow meta name d o h = elim (Option-cases (lookup_key name meta)) [
  | inl missing ↦
      let none_read : optional_f32 narrow meta name ≡ ok none = rw (optional_f32, missing) refl in
      inl (missing, ap (λ r. unwrap_or r d) (ok-injective (sym none_read ∙ h)))
  | inr (value, found) ↦
      let (v, v_ok, h1) =
        >>=-eq-ok (ok_or_missing (as_f32 narrow value) name) _ (rw (optional_f32, found) at h) in
      inr (
        typed-found (as_f32 narrow) name meta value found
        ∙ ok_or_missing-ok (as_f32 narrow value) name v v_ok
        ∙ ap some (sym (ap (λ r. unwrap_or r d) (ok-injective h1))))
]

pub tokenizer_vocab_size-CountsTokens :
    (meta : Metadata) (v : ℕ) → tokenizer_vocab_size meta ≡ ok v → CountsTokens meta v
unfolding tokenizer_vocab_size
tokenizer_vocab_size-CountsTokens meta v h =
    let (tokens, found, cast) =
      >>=-eq-ok (ok_or_missing (typed as_string_array tokens_key meta) tokens_key) _ h in
    let (same, fits) = as_u32-ok (length tokens) v cast in
    (
      tokens,
      ok_or_missing-ok (typed as_string_array tokens_key meta) tokens_key tokens found,
      sym same,
      fits,
    )
