-- ===== src/Editor/Valid.antt =====
-- The invariant of the editor.
use project_willamette.Prelude.{
  ℕ, ◌≤◌, ◌<◌, ◌≡◌, refl, sym, Option, none, some, List, ◌++◌, length, Bool-cases, inl, inr,
  is_some,
}
use project_willamette.Editor.Text.{byte_len}
use project_willamette.Editor.State.{history_cap, SearchState, InputEditor}
use project_willamette.Editor.Operations.{exit_history_browse_if_needed}
use project_willamette.Editor.Cursor.{placed, edited}
use mathlib.Core.Path.{subst}

-- The indices into the history are in range, the history keeps its cap, and a line is saved
-- exactly while the history is browsed.
pub record IsSound (history : List (List ℕ)) (at : Option ℕ) (saved : Option (List ℕ))
    (search : Option SearchState) : Type 0 where
  pub within : length history ≤ history_cap
  pub browsing : (i : ℕ) → at ≡ some i → i < length history
  pub saving : is_some saved ≡ is_some at
  pub found :
      (s : SearchState) (i : ℕ) → search ≡ some s → s.match_idx ≡ some i → i < length history

abbrev pub Sound : InputEditor → Type 0
Sound e = IsSound e.history e.history_cursor e.saved_for_history e.search

-- The cursor stands between `before` and `behind`, on a char boundary.
pub record IsValid (e : InputEditor) : Type 0 where
  pub before : List ℕ
  pub behind : List ℕ
  pub line : e.buffer ≡ before ++ behind
  pub cursor : e.cursor_byte ≡ byte_len before
  pub sound : Sound e

-- The call did not panic, and left a valid editor.
abbrev pub Safe : Option InputEditor → Type 0
Safe none = ⊥
Safe (some e) = IsValid e

pub placed-IsValid : (e : InputEditor) (l r : List ℕ) → Sound e → IsValid (placed e l r)
placed-IsValid e l r h = record { before = l; behind = r; line = refl; cursor = refl; sound = h }

pub IsValid-placed : {e : InputEditor} (v : IsValid e) → e ≡ placed e v.before v.behind
IsValid-placed {e} v = λ i. record e { buffer = v.line i; cursor_byte = v.cursor i }

-- A method that is safe wherever the cursor stands is safe on a valid editor.
pub Safe-of_placed :
    (op : InputEditor → Option InputEditor) {e : InputEditor}
    → IsValid e
    → ((l r : List ℕ) → Safe (op (placed e l r)))
    → Safe (op e)
Safe-of_placed op {e} v h = subst (λ x. Safe (op x)) (sym (IsValid-placed v)) (h v.before v.behind)

-- The same where the result is known.
pub Safe-at :
    (e : InputEditor) (l r : List ℕ) {o : Option InputEditor}
    → Sound e
    → o ≡ some (placed e l r)
    → Safe o
Safe-at e l r h eq = subst Safe (sym eq) (placed-IsValid e l r h)

pub edited-Sound : (e : InputEditor) → Sound e → Sound (edited e)
unfolding exit_history_browse_if_needed
edited-Sound e h = elim (Bool-cases (is_some e.history_cursor)) [
  | inl b ↦
      rw b (record { within = h.within; browsing = λ i p. cc; saving = refl; found = h.found })
  | inr b ↦ rw b h
]
