-- ===== src/Editor/Eviction.antt =====
-- The eviction of old entries when a line is submitted.
use project_willamette.Prelude.{
  ℕ, zero, suc, ◌+◌, ◌≤◌, ◌≡◌, refl, sym, ap, leb→le, ◌∙◌, arith, List, [], ◌∷◌, length, take,
  take_all, ltb, Bool-cases, inl, inr, length-take, not, ◌&&◌, ◌==◌,
}
use project_willamette.Editor.Text.{byte_len}
use project_willamette.Editor.State.{history_cap}
use project_willamette.Editor.History.{pop_last, evict, remember, is_front}

length-pop_last {ℓ} : {A : Type ℓ} (x : A) (xs : List A) → length (pop_last (x ∷ xs)) ≡ length xs
unfolding pop_last
length-pop_last x [] = refl
length-pop_last x (y ∷ ys) = ap suc (length-pop_last y ys)

take-pop_last {ℓ} :
    {A : Type ℓ} (n : ℕ) (x : A) (xs : List A)
    → n ≤ length xs
    → take n (pop_last (x ∷ xs)) ≡ take n (x ∷ xs)
unfolding pop_last
take-pop_last zero x xs h = refl
take-pop_last (suc n) x [] h = elim h [ ]
take-pop_last (suc n) x (y ∷ ys) h = ap (λ l. x ∷ l) (take-pop_last n y ys (omega arith))

-- On fuel for as many entries as are over the cap, the loop ends with the newest entries, as many as
-- the cap allows.
pub evict-eq-take :
    (fuel : ℕ) (history : List (List ℕ))
    → length history ≤ fuel + history_cap
    → evict fuel history ≡ take history_cap history
unfolding evict
evict-eq-take zero history h = sym (take_all history_cap history h)
evict-eq-take (suc fuel) [] h = refl
evict-eq-take (suc fuel) (x ∷ xs) h = elim (Bool-cases (ltb history_cap (length (x ∷ xs)))) [
  | inl over ↦ rw over (
      evict-eq-take fuel (pop_last (x ∷ xs)) (omega (arith, length-pop_last x xs))
      ∙ take-pop_last history_cap x xs (leb→le _ _ (ground arith)))
  | inr fits ↦ rw fits (sym (take_all history_cap (x ∷ xs) (ground arith)))
]

pub length-remember :
    (line : List ℕ) (history : List (List ℕ))
    → length history ≤ history_cap
    → length (remember line history) ≤ history_cap
unfolding remember
length-remember line history h =
    elim (Bool-cases (not (byte_len line == 0) && not (is_front history line))) [
      | inl new ↦
          rw (new, evict-eq-take (length (line ∷ history)) (line ∷ history) (omega arith))
            (omega (arith, length-take history_cap (line ∷ history)))
      | inr old ↦ rw old h
    ]
