-- ===== src/Gguf/Outcome.antt =====
-- What a call of a fallible function comes to where it can also panic: `none` is the panic.
use project_willamette.Prelude.{◌≡◌, refl, Option, none, some}
use project_willamette.Gguf.Result.{Result, ok, err}

abbrev pub Outcome {ℓ} : Type ℓ → Type ℓ
Outcome A = Option (Result A)

abbrev pub pure {ℓ} : {A : Type ℓ} → A → Outcome A
pure a = some (ok a)

infixl 5 ◌>>=◌
abbrev pub ◌>>=◌ {ℓ κ} : {A : Type ℓ} {B : Type κ} → Outcome A → (A → Outcome B) → Outcome B
none >>= next = none
some (err e) >>= next = some (err e)
some (ok a) >>= next = next a

-- A value that is there but for a panic.
abbrev pub unless_panic {ℓ} : {A : Type ℓ} → Option A → Outcome A
unless_panic none = none
unless_panic (some a) = some (ok a)

-- A chain that gives a value has each of its parts give one.
pub >>=-eq-pure {ℓ κ} :
    {A : Type ℓ} {B : Type κ} (first : Outcome A) (next : A → Outcome B) {b : B}
    → (first >>= next) ≡ some (ok b)
    → (a : A) × (first ≡ some (ok a)) × (next a ≡ some (ok b))
>>=-eq-pure none next h = cc
>>=-eq-pure (some (err e)) next h = cc
>>=-eq-pure (some (ok a)) next h = (a, refl, h)
