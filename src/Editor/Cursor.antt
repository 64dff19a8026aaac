-- ===== src/Editor/Cursor.antt =====
-- What the methods do to a line seen as the text before the cursor and the text behind it.
use project_willamette.Prelude.{
  ℕ, ◌≡◌, refl, sym, ap, ◌∙◌, arith, some, List, [], ◌∷◌, ◌++◌, leb, ltb, ◌==◌, true, false,
  Bool-cases, inl, inr, is_some,
}
use project_willamette.Editor.Text.{len_utf8, byte_len, char_indices}
use project_willamette.Editor.Boundaries.{
  split_at-append, byte_len-append, last_index-snoc, byte_len_pos,
}
use project_willamette.Editor.State.{InputEditor}
use project_willamette.Editor.Operations.{
  remove_range, exit_history_browse_if_needed, insert_at_cursor, insert_str, insert_char,
  prev_boundary, next_boundary, cut_back_to, backspace, delete, backspace_here, delete_here,
  insert_char_here, move_left, move_right, delete_to_start, delete_to_end, delete_to_end_here,
}
use mathlib.Core.List.{append_assoc, append-nil}

-- The editor `e` with the cursor between the texts `l` and `r`.
abbrev pub placed : InputEditor → List ℕ → List ℕ → InputEditor
placed e l r = record e { buffer = l ++ r; cursor_byte = byte_len l }

-- `e` after the browsing of its history has ended.
abbrev pub edited : InputEditor → InputEditor
edited e = exit_history_browse_if_needed e

pub exit-placed : (e : InputEditor) (l r : List ℕ) → edited (placed e l r) ≡ placed (edited e) l r
unfolding exit_history_browse_if_needed
exit-placed e l r = elim (Bool-cases (is_some e.history_cursor)) [ inl h ↦ rw h | inr h ↦ rw h ]

insert-placed :
    (e : InputEditor) (s l r : List ℕ)
    → insert_at_cursor s (placed e l r) ≡ some (placed e (l ++ s) r)
unfolding insert_at_cursor
insert-placed e s l r = rw (split_at-append, byte_len-append, append_assoc)

byte_len_one : (c : ℕ) → byte_len (c ∷ []) ≡ len_utf8 c
unfolding byte_len
byte_len_one c = omega arith

-- Inserted text ends up before the cursor, whole, and the text around it is kept.
pub insert_str-placed :
    (e : InputEditor) (s l r : List ℕ)
    → insert_str s (placed e l r) ≡ some (placed (edited e) (l ++ s) r)
unfolding insert_str
insert_str-placed e s l r = rw exit-placed (insert-placed (edited e) s l r)

pub insert_char-placed :
    (e : InputEditor) (c : ℕ) (l r : List ℕ)
    → insert_char c (placed e l r) ≡ some (placed (edited e) (l ++ c ∷ []) r)
unfolding insert_char insert_char_here
insert_char-placed e c l r =
    rw (exit-placed, split_at-append, byte_len-append, append_assoc) (rw byte_len_one)

prev-placed :
    (e : InputEditor) (l r : List ℕ) (c : ℕ)
    → prev_boundary (placed e (l ++ c ∷ []) r) ≡ some (byte_len l)
unfolding prev_boundary
prev-placed e l r c = rw (split_at-append, last_index-snoc) (ap some (omega arith))

remove-middle :
    (l m r : List ℕ) → remove_range (byte_len l) (byte_len (l ++ m)) ((l ++ m) ++ r) ≡ some (l ++ r)
unfolding remove_range
remove-middle l m r = rw split_at-append (rw split_at-append)

remove-next :
    (l : List ℕ) (c : ℕ) (r : List ℕ)
    → remove_range (byte_len l) (byte_len (l ++ c ∷ [])) (l ++ c ∷ r) ≡ some (l ++ r)
remove-next l c r =
    ap (remove_range (byte_len l) (byte_len (l ++ c ∷ []))) (sym (append_assoc l (c ∷ []) r))
    ∙ remove-middle l (c ∷ []) r

pub cut-placed :
    (e : InputEditor) (l m r : List ℕ)
    → cut_back_to (byte_len l) (placed e (l ++ m) r) ≡ some (placed e l r)
unfolding cut_back_to
cut-placed e l m r = rw remove-middle

cursor_ne_zero : (l : List ℕ) (c : ℕ) → (byte_len (l ++ c ∷ []) == 0) ≡ false
cursor_ne_zero l c = ground (arith, byte_len-append l (c ∷ []), byte_len_pos c [])

backspace_here-placed :
    (e : InputEditor) (l r : List ℕ) (c : ℕ)
    → backspace_here (placed e (l ++ c ∷ []) r) ≡ some (placed e l r)
unfolding backspace_here
backspace_here-placed e l r c = rw (cursor_ne_zero, prev-placed e) (cut-placed e l (c ∷ []) r)

-- Backspace
pub backspace-placed :
    (e : InputEditor) (l r : List ℕ) (c : ℕ)
    → backspace (placed e (l ++ c ∷ []) r) ≡ some (placed (edited e) l r)
unfolding backspace
backspace-placed e l r c = rw exit-placed (backspace_here-placed (edited e) l r c)

next-placed :
    (e : InputEditor) (l r : List ℕ) (c : ℕ)
    → next_boundary (placed e l (c ∷ r)) ≡ some (byte_len (l ++ c ∷ []))
unfolding next_boundary byte_len char_indices
next-placed e l [] c = rw split_at-append
next-placed e l (d ∷ r) c = rw (split_at-append, byte_len-append) (ap some (omega arith))

cursor_lt_end : (l r : List ℕ) (c : ℕ) → leb (byte_len (l ++ c ∷ r)) (byte_len l) ≡ false
cursor_lt_end l r c = ground (arith, byte_len-append l (c ∷ r), byte_len_pos c r)

delete_here-placed :
    (e : InputEditor) (l r : List ℕ) (c : ℕ)
    → delete_here (placed e l (c ∷ r)) ≡ some (placed e l r)
unfolding delete_here
delete_here-placed e l r c = rw (cursor_lt_end, next-placed e, remove-next)

pub delete-placed :
    (e : InputEditor) (l r : List ℕ) (c : ℕ)
    → delete (placed e l (c ∷ r)) ≡ some (placed (edited e) l r)
unfolding delete
delete-placed e l r c = rw exit-placed (delete_here-placed (edited e) l r c)

pub move_left-placed :
    (e : InputEditor) (l r : List ℕ) (c : ℕ)
    → move_left (placed e (l ++ c ∷ []) r) ≡ some (placed e l (c ∷ r))
unfolding move_left
move_left-placed e l r c = rw (cursor_ne_zero, prev-placed e, append_assoc)

pub move_right-placed :
    (e : InputEditor) (l r : List ℕ) (c : ℕ)
    → move_right (placed e l (c ∷ r)) ≡ some (placed e (l ++ c ∷ []) r)
unfolding move_right
move_right-placed e l r c = rw (cursor_lt_end, next-placed e, append_assoc)

-- At the start of the line there is nothing to erase to the left.
pub backspace-start :
    (e : InputEditor) (r : List ℕ) → backspace (placed e [] r) ≡ some (placed (edited e) [] r)
unfolding backspace backspace_here byte_len
backspace-start e r = rw exit-placed

pub move_left-start :
    (e : InputEditor) (r : List ℕ) → move_left (placed e [] r) ≡ some (placed e [] r)
unfolding move_left byte_len
move_left-start e r = refl

leb_refl : (n : ℕ) → leb n n ≡ true
leb_refl n = ground arith

pub delete-end :
    (e : InputEditor) (l : List ℕ) → delete (placed e l []) ≡ some (placed (edited e) l [])
unfolding delete delete_here
delete-end e l = rw (exit-placed, append-nil, leb_refl)

pub move_right-end :
    (e : InputEditor) (l : List ℕ) → move_right (placed e l []) ≡ some (placed e l [])
unfolding move_right
move_right-end e l = rw (append-nil, leb_refl)

-- Ctrl-U keeps what is behind the cursor, and Ctrl-K what is before it.
pub delete_to_start-placed :
    (e : InputEditor) (l r : List ℕ)
    → delete_to_start (placed e l r) ≡ some (placed (edited e) [] r)
unfolding delete_to_start byte_len
delete_to_start-placed e l r = rw exit-placed (cut-placed (edited e) [] l r)

cursor-le-end : (l r : List ℕ) → ltb (byte_len (l ++ r)) (byte_len l) ≡ false
cursor-le-end l r = ground (arith, byte_len-append l r)

pub delete_to_end-placed :
    (e : InputEditor) (l r : List ℕ) → delete_to_end (placed e l r) ≡ some (placed (edited e) l [])
unfolding delete_to_end delete_to_end_here
delete_to_end-placed e l r = rw (exit-placed, cursor-le-end, split_at-append, append-nil)
