-- ===== src/Editor/Refinement.antt =====
-- The editing calls against a description of a line as the text on each side of the cursor, with
-- no byte offset in it.
use project_willamette.Prelude.{ℕ, ◌≡◌, refl, inl, inr, some, List, [], ◌∷◌, ◌++◌}
use project_willamette.Editor.State.{InputEditor}
use project_willamette.Editor.Boundaries.{List-ends}
use project_willamette.Editor.Text.{byte_len}
use project_willamette.Editor.Operations.{move_home, move_end, clear}
use project_willamette.Editor.Calls.{Call, call}
use project_willamette.Editor.Words.{EndsInWord, delete_word_back-placed}
use project_willamette.Editor.Safety.{ends_in_word}
use project_willamette.Editor.Cursor.{
  placed, edited, exit-placed, insert_char-placed, insert_str-placed, backspace-placed,
  backspace-start, delete-placed, delete-end, move_left-placed, move_left-start, move_right-placed,
  move_right-end, delete_to_start-placed, delete_to_end-placed,
}
use mathlib.Core.List.{append-nil}

-- `Edits c l r l' r'`: the call takes the cursor from between `l` and `r` to between `l'` and `r'`.
-- A position of a removed word is any that `EndsInWord` allows.
pub data Edits : Call → List ℕ → List ℕ → List ℕ → List ℕ → Type 0 where
  types : (c : ℕ) (l r : List ℕ) → Edits (Call.typed c) l r (l ++ c ∷ []) r
  pastes : (s l r : List ℕ) → Edits (Call.pasted s) l r (l ++ s) r
  erases_left : (k : List ℕ) (c : ℕ) (r : List ℕ) → Edits Call.erase_left (k ++ c ∷ []) r k r
  at_start : (r : List ℕ) → Edits Call.erase_left [] r [] r
  erases_right : (l : List ℕ) (c : ℕ) (r : List ℕ) → Edits Call.erase_right l (c ∷ r) l r
  at_end : (l : List ℕ) → Edits Call.erase_right l [] l []
  steps_left : (k : List ℕ) (c : ℕ) (r : List ℕ) → Edits Call.left (k ++ c ∷ []) r k (c ∷ r)
  stays_left : (r : List ℕ) → Edits Call.left [] r [] r
  steps_right : (l : List ℕ) (c : ℕ) (r : List ℕ) → Edits Call.right l (c ∷ r) (l ++ c ∷ []) r
  stays_right : (l : List ℕ) → Edits Call.right l [] l []
  kills_word : (k w s r : List ℕ) → EndsInWord k w s → Edits Call.kill_word (k ++ (w ++ s)) r k r
  kills_start : (l r : List ℕ) → Edits Call.kill_start l r [] r
  kills_end : (l r : List ℕ) → Edits Call.kill_end l r l []
  goes_home : (l r : List ℕ) → Edits Call.home l r [] (l ++ r)
  goes_end : (l r : List ℕ) → Edits Call.end l r (l ++ r) []
  wipes : (l r : List ℕ) → Edits Call.wipe l r [] []

-- Editing ends the browsing of the history; moving the cursor does not.
abbrev pub after : Call → InputEditor → InputEditor
after Call.left e = e
after Call.right e = e
after Call.home e = e
after Call.end e = e
after _ e = edited e

-- The calls that work on the line alone.
pub data IsLineCall : Call → Type 0 where
  typed : (c : ℕ) → IsLineCall (Call.typed c)
  pasted : (s : List ℕ) → IsLineCall (Call.pasted s)
  erase_left : IsLineCall Call.erase_left
  erase_right : IsLineCall Call.erase_right
  left : IsLineCall Call.left
  right : IsLineCall Call.right
  home : IsLineCall Call.home
  end : IsLineCall Call.end
  kill_word : IsLineCall Call.kill_word
  kill_start : IsLineCall Call.kill_start
  kill_end : IsLineCall Call.kill_end
  wipe : IsLineCall Call.wipe

-- Whatever the description allows is what the code does.
pub Edits-call :
    {c : Call} {l r l' r' : List ℕ} (e : InputEditor)
    → Edits c l r l' r'
    → call c (placed e l r) ≡ some (placed (after c e) l' r')
unfolding call
Edits-call e (types c l r) = insert_char-placed e c l r
Edits-call e (pastes s l r) = insert_str-placed e s l r
Edits-call e (erases_left k c r) = backspace-placed e k r c
Edits-call e (at_start r) = backspace-start e r
Edits-call e (erases_right l c r) = delete-placed e l r c
Edits-call e (at_end l) = delete-end e l
Edits-call e (steps_left k c r) = move_left-placed e k r c
Edits-call e (stays_left r) = move_left-start e r
Edits-call e (steps_right l c r) = move_right-placed e l r c
Edits-call e (stays_right l) = move_right-end e l
Edits-call e (kills_word k w s r h) = delete_word_back-placed e k w s r h
Edits-call e (kills_start l r) = delete_to_start-placed e l r
Edits-call e (kills_end l r) = delete_to_end-placed e l r
Edits-call e (goes_home l r) = unfold move_home byte_len in refl
Edits-call e (goes_end l r) = unfold move_end in rw append-nil
Edits-call e (wipes l r) = unfold clear byte_len in rw exit-placed

-- The description covers every line call wherever the cursor stands.
Edits-total :
    {c : Call} → IsLineCall c → (l r : List ℕ) → (l' : List ℕ) × (r' : List ℕ) × Edits c l r l' r'
Edits-total (typed c) l r = (l ++ c ∷ [], r, types c l r)
Edits-total (pasted s) l r = (l ++ s, r, pastes s l r)
Edits-total erase_left l r = elim (List-ends l) [
  | inl e ↦ rw e ([], r, at_start r)
  | inr (k, c, e) ↦ rw e (k, r, erases_left k c r)
]
Edits-total erase_right l [] = (l, [], at_end l)
Edits-total erase_right l (c ∷ r) = (l, r, erases_right l c r)
Edits-total left l r = elim (List-ends l) [
  | inl e ↦ rw e ([], r, stays_left r)
  | inr (k, c, e) ↦ rw e (k, c ∷ r, steps_left k c r)
]
Edits-total right l [] = (l, [], stays_right l)
Edits-total right l (c ∷ r) = (l ++ c ∷ [], r, steps_right l c r)
Edits-total home l r = ([], l ++ r, goes_home l r)
Edits-total end l r = (l ++ r, [], goes_end l r)
Edits-total kill_word l r =
    let (k, w, s, e, h) = ends_in_word l in rw e (k, r, kills_word k w s r h)
Edits-total kill_start l r = ([], r, kills_start l r)
Edits-total kill_end l r = (l, [], kills_end l r)
Edits-total wipe l r = ([], [], wipes l r)

-- Every line call does an edit of the description, wherever the cursor stands, and leaves the
-- history and the search alone but for the browsing that an edit ends.
pub call-refines-Edits :
    {c : Call} (e : InputEditor) (l r : List ℕ)
    → IsLineCall c
    → (l' : List ℕ) × (r' : List ℕ) × Edits c l r l' r'
      × (call c (placed e l r) ≡ some (placed (after c e) l' r'))
call-refines-Edits e l r h = let (l', r', d) = Edits-total h l r in (l', r', d, Edits-call e d)
