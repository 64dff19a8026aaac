-- ===== src/Editor/Boundaries.antt =====
-- Char boundaries: splits, indices and lengths of a text that is put together from two parts.
use project_willamette.Prelude.{
  ℕ, zero, suc, ◌+◌, ◌-◌, ◌≤◌, ◌<◌, ◌≡◌, refl, ap, ◌∙◌, arith, Option, none, some, List, [], ◌∷◌,
  ◌++◌, leb, if◌then◌else◌, get_elem?, le→leb, leb→le, ◌⊎◌, Bool, true, false, inl, inr,
}
use project_willamette.Editor.Text.{len_utf8, byte_len, split_at, char_indices, cons_left}
use project_willamette.Editor.Operations.{last_index}
use mathlib.Core.Option

pub len_utf8_bounds : (c : ℕ) → (1 ≤ len_utf8 c) × (len_utf8 c ≤ 4)
unfolding len_utf8
len_utf8_bounds c = ground arith

pub byte_len-append : (s t : List ℕ) → byte_len (s ++ t) ≡ byte_len s + byte_len t
unfolding byte_len
byte_len-append [] t = omega arith
byte_len-append (c ∷ s) t = omega (arith, byte_len-append s t)

split_step :
    (n m c : ℕ) (s : List ℕ) (p : List ℕ × List ℕ)
    → n ≡ len_utf8 c + m
    → split_at m s ≡ some p
    → split_at n (c ∷ s) ≡ some (cons_left c p)
unfolding split_at
split_step zero m c s p e h = absurd (omega (arith, len_utf8_bounds c))
split_step (suc k) m c s p e h =
    let fits : leb (len_utf8 c) (suc k) ≡ true = le→leb _ _ (omega arith) in
    let rest : suc k - len_utf8 c ≡ m = omega arith in rw (fits, rest, h)

pub split_at-append : (l r : List ℕ) → split_at (byte_len l) (l ++ r) ≡ some (l, r)
unfolding split_at byte_len
split_at-append [] r = refl
split_at-append (c ∷ l) r = split_step _ (byte_len l) c (l ++ r) (l, r) refl (split_at-append l r)

split_tail :
    (b : Bool) (o : Option (List ℕ × List ℕ)) (c : ℕ) (l r : List ℕ)
    → (if b then Option.map (cons_left c) o else none) ≡ some (l, r)
    → (l' : List ℕ) × (l ≡ c ∷ l') × (o ≡ some (l', r)) × (b ≡ true)
split_tail false o c l r h = cc
split_tail true none c l r h = cc
split_tail true (some (a, d)) c l r h = (a, ground arith, ground arith, refl)

-- A split takes the text apart at the offset.
pub split_at-some :
    (n : ℕ) (s l r : List ℕ) → split_at n s ≡ some (l, r) → (s ≡ l ++ r) × (n ≡ byte_len l)
unfolding split_at byte_len
split_at-some zero [] l r h = ground arith
split_at-some zero (c ∷ s) l r h = ground arith
split_at-some (suc n) [] l r h = cc
split_at-some (suc n) (c ∷ s) l r h =
    let (l', e, h', fits) = split_tail _ _ c l r h in
    let (whole, at) = split_at-some (suc n - len_utf8 c) s l' r h' in
    rw (e, whole) (refl, omega (arith, leb→le _ _ fits))

-- The offset of the last character.
pub last_index-snoc :
    (at : ℕ) (l : List ℕ) (c : ℕ)
    → last_index (char_indices at (l ++ c ∷ [])) ≡ some (at + byte_len l)
unfolding last_index char_indices byte_len
last_index-snoc at [] c = ground arith
last_index-snoc at (d ∷ []) c = ground arith
last_index-snoc at (d ∷ b ∷ l) c =
    last_index-snoc (at + len_utf8 d) (b ∷ l) c ∙ ap some (omega arith)

-- The end of the first character.
pub char_indices_second :
    (c d : ℕ) (r : List ℕ) → get_elem? (char_indices 0 (c ∷ d ∷ r)) 1 ≡ some (len_utf8 c, d)
unfolding char_indices
char_indices_second c d r = ground arith

pub byte_len_pos : (c : ℕ) (s : List ℕ) → 0 < byte_len (c ∷ s)
unfolding byte_len
byte_len_pos c s = omega (arith, len_utf8_bounds c)

pub byte_len-eq_zero : (s : List ℕ) → byte_len s ≡ 0 → s ≡ []
byte_len-eq_zero [] h = refl
byte_len-eq_zero (c ∷ s) h = absurd (omega (arith, byte_len_pos c s))

-- A text is empty or ends in a character.
pub List-ends {ℓ} :
    {A : Type ℓ} (l : List A) → (l ≡ []) ⊎ ((k : List A) × (c : A) × (l ≡ k ++ c ∷ []))
List-ends [] = inl refl
List-ends (x ∷ l) = elim (List-ends l) [
  | inl e ↦ inr ([], x, rw e)
  | inr (k, c, e) ↦ inr (x ∷ k, c, rw e)
]
