-- ===== src/Generation/Run.antt =====
-- What a call of a generation function comes to: the calls of its callback in order, then its outcome.
use project_willamette.Prelude.{ℕ, ◌≡◌, ◌⊎◌, inl, inr, refl, ap, none, some, List, [], ◌∷◌, ◌++◌}
use mathlib.Core.Path.{subst}
use mathlib.Core.List.{append_assoc}
use project_willamette.Gguf.Result.{WillametteError, ok, err}
use project_willamette.Gguf.Outcome.{Outcome}

-- The arguments of `tick`: the step, the position and the id.
pub record Tick : Type 0 where
  pub step : ℕ
  pub position : ℕ
  pub id : ℕ

abbrev pub Run {ℓ} : Type ℓ → Type ℓ
Run A = List Tick × Outcome A

abbrev pub pure {ℓ} : {A : Type ℓ} → A → Run A
pure a = ([], some (ok a))

abbrev pub lift {ℓ} : {A : Type ℓ} → Outcome A → Run A
lift o = ([], o)

abbrev pub tick : Tick → Run (Unit {0})
tick t = (t ∷ [], some (ok tt))

-- What follows an outcome, after the ticks that came before.
abbrev pub continue {ℓ κ} : {A : Type ℓ} {B : Type κ} → List Tick → Outcome A → (A → Run B) → Run B
continue ticks none next = (ticks, none)
continue ticks (some (err e)) next = (ticks, some (err e))
continue ticks (some (ok a)) next = (ticks ++ (next a).0, (next a).1)

infixl 5 ◌>>=◌
abbrev pub ◌>>=◌ {ℓ κ} : {A : Type ℓ} {B : Type κ} → Run A → (A → Run B) → Run B
first >>= next = continue first.0 first.1 next

infixl 5 ◌>>◌
abbrev pub ◌>>◌ {ℓ κ} : {A : Type ℓ} {B : Type κ} → Run A → Run B → Run B
first >> second = first >>= λ _. second

pub >>=-cong {ℓ κ} :
    {A : Type ℓ} {B : Type κ} (first : Run A) {g h : A → Run B}
    → ((a : A) → g a ≡ h a)
    → (first >>= g) ≡ (first >>= h)
>>=-cong (ticks, none) same = refl
>>=-cong (ticks, some (err e)) same = refl
>>=-cong (ticks, some (ok a)) same = ap (λ (r : Run _). (ticks ++ r.0, r.1)) (same a)

Outcome-cases {ν} :
    {D : Type ν} (o : Outcome D)
    → ((o ≡ none) ⊎ ((e : WillametteError) × (o ≡ some (err e)))) ⊎ ((d : D) × (o ≡ some (ok d)))
Outcome-cases none = inl (inl refl)
Outcome-cases (some (err e)) = inl (inr (e, refl))
Outcome-cases (some (ok d)) = inr (d, refl)

pub >>=-assoc {ℓ κ μ} :
    {A : Type ℓ} {B : Type κ} {C : Type μ} (first : Run A) (g : A → Run B) (h : B → Run C)
    → ((first >>= g) >>= h) ≡ (first >>= λ a. g a >>= h)
>>=-assoc (ticks, none) g h = refl
>>=-assoc (ticks, some (err e)) g h = refl
>>=-assoc (ticks, some (ok a)) g h = elim (Outcome-cases (g a).1) [
  | inl (inl p) ↦ rw p refl
  | inl (inr (e, p)) ↦ rw p refl
  | inr (b, p) ↦ rw p (ap (λ l. (l, (h b).1)) (append_assoc ticks (g a).0 (h b).0))
]

-- As `>>=-cong`, for the values that the first part gives.
pub >>=-cong_ok {ℓ κ} :
    {A : Type ℓ} {B : Type κ} (first : Run A) {g h : A → Run B}
    → ((a : A) → first.1 ≡ some (ok a) → g a ≡ h a)
    → (first >>= g) ≡ (first >>= h)
>>=-cong_ok (ticks, none) same = refl
>>=-cong_ok (ticks, some (err e)) same = refl
>>=-cong_ok (ticks, some (ok a)) same = ap (λ (r : Run _). (ticks ++ r.0, r.1)) (same a refl)

-- What holds of the callback's calls and the value of a run that gives one.
abbrev pub Gives {ℓ κ} : {A : Type ℓ} → (List Tick → A → Type κ) → Run A → Type (ℓ ⊔ κ)
Gives P run = (ticks : List Tick) (a : _) → run ≡ (ticks, some (ok a)) → P ticks a

pub pure-Gives {ℓ κ} : {A : Type ℓ} (P : List Tick → A → Type κ) (a : A) → P [] a → Gives P (pure a)
pure-Gives {A = A} P a h ticks b e =
    subst (λ l. P l b) (ap (λ r. r.0) e) (subst (P []) (value-injective (ap (λ r. r.1) e)) h)
  where
    value-injective : {x y : A} → some (ok x) ≡ some (ok y) → x ≡ y
    value-injective p = cc

pub >>=-Gives {ℓ κ μ} :
    {A : Type ℓ} {B : Type κ} (P : List Tick → B → Type μ) (first : Run A) (next : A → Run B)
    → ((a : A) → first.1 ≡ some (ok a) → Gives (λ ticks b. P (first.0 ++ ticks) b) (next a))
    → Gives P (first >>= next)
>>=-Gives P (before, none) next h ticks b e = cc
>>=-Gives P (before, some (err x)) next h ticks b e = cc
>>=-Gives P (before, some (ok a)) next h ticks b e =
    subst (λ l. P l b) (ap (λ r. r.0) e)
      (h a refl (next a).0 b (ap (λ o. ((next a).0, o)) (ap (λ r. r.1) e)))
