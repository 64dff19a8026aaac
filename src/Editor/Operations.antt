-- ===== src/Editor/Operations.antt =====
-- The methods of `InputEditor`, in the source's order. A method returns the new state, or `none`
-- where the source would panic (a slice off a char boundary, an index out of range).
use project_willamette.Prelude.{
  ℕ, zero, suc, ◌+◌, Bool, not, Option, none, some, List, [], ◌∷◌, ◌++◌, ltb, leb, ◌==◌,
  if◌then◌else◌, length, get_elem?, is_some, ◌>>=◌,
}
use project_willamette.Editor.Text.{len_utf8, is_whitespace, byte_len, split_at, char_indices}
use project_willamette.Editor.State.{InputEditor}
use mathlib.Core.Option

-- `next_back()` over the indices, without the characters.
unfoldable pub last_index : List (ℕ × ℕ) → Option ℕ
last_index [] = none
last_index ((i, c) ∷ []) = some i
last_index (p ∷ q ∷ ps) = last_index (q ∷ ps)

abbrev pub unwrap_or {ℓ} : {A : Type ℓ} → Option A → A → A
unwrap_or none d = d
unwrap_or (some a) d = a

-- `buffer.replace_range(from..to, "")`.
unfoldable pub remove_range : ℕ → ℕ → List ℕ → Option (List ℕ)
remove_range from to s = do
  (head, tail) ← split_at to s
  (kept, _) ← split_at from head
  some (kept ++ tail)

unfoldable pub cursor_char : InputEditor → Option ℕ
cursor_char e = do (head, _) ← split_at e.cursor_byte e.buffer; some (length head)

unfoldable pub is_empty : InputEditor → Bool
is_empty e = byte_len e.buffer == 0

unfoldable pub exit_history_browse_if_needed : InputEditor → InputEditor
exit_history_browse_if_needed e =
    if is_some e.history_cursor
    then record e { history_cursor = none; saved_for_history = none }
    else e

-- `buffer.insert_str(cursor, s); cursor += s.len()`.
unfoldable pub insert_at_cursor : List ℕ → InputEditor → Option InputEditor
insert_at_cursor s e = do
  (head, tail) ← split_at e.cursor_byte e.buffer
  some (record e { buffer = head ++ (s ++ tail); cursor_byte = e.cursor_byte + byte_len s })

unfoldable pub insert_str : List ℕ → InputEditor → Option InputEditor
insert_str s e = insert_at_cursor s (exit_history_browse_if_needed e)

unfoldable pub insert_char_here : ℕ → InputEditor → Option InputEditor
insert_char_here c e = do
  (head, tail) ← split_at e.cursor_byte e.buffer
  some (record e { buffer = head ++ c ∷ tail; cursor_byte = e.cursor_byte + len_utf8 c })

unfoldable pub insert_char : ℕ → InputEditor → Option InputEditor
insert_char c e = insert_char_here c (exit_history_browse_if_needed e)

-- The boundary before the cursor.
unfoldable pub prev_boundary : InputEditor → Option ℕ
prev_boundary e = do
  (head, _) ← split_at e.cursor_byte e.buffer
  some (unwrap_or (last_index (char_indices 0 head)) 0)

-- The boundary after the character at the cursor.
unfoldable pub next_boundary : InputEditor → Option ℕ
next_boundary e = do
  (_, tail) ← split_at e.cursor_byte e.buffer
  some (
      unwrap_or (Option.map (λ p. e.cursor_byte + p.0) (get_elem? (char_indices 0 tail) 1))
        (byte_len e.buffer))

-- `replace_range(start..cursor, "")` and the move of the cursor to `start`.
unfoldable pub cut_back_to : ℕ → InputEditor → Option InputEditor
cut_back_to start e = do
  buffer ← remove_range start e.cursor_byte e.buffer
  some (record e { buffer = buffer; cursor_byte = start })

unfoldable pub backspace_here : InputEditor → Option InputEditor
backspace_here e =
    if e.cursor_byte == 0 then some e else (do prev ← prev_boundary e; cut_back_to prev e)

unfoldable pub backspace : InputEditor → Option InputEditor
backspace e = backspace_here (exit_history_browse_if_needed e)

unfoldable pub delete_here : InputEditor → Option InputEditor
delete_here e = if leb (byte_len e.buffer) e.cursor_byte then some e else (do
  next ← next_boundary e
  buffer ← remove_range e.cursor_byte next e.buffer
  some (record e { buffer = buffer }))

unfoldable pub delete : InputEditor → Option InputEditor
delete e = delete_here (exit_history_browse_if_needed e)

unfoldable pub move_left : InputEditor → Option InputEditor
move_left e =
    if e.cursor_byte == 0
    then some e
    else (do prev ← prev_boundary e; some (record e { cursor_byte = prev }))

unfoldable pub move_right : InputEditor → Option InputEditor
move_right e =
    if leb (byte_len e.buffer) e.cursor_byte
    then some e
    else (do next ← next_boundary e; some (record e { cursor_byte = next }))

unfoldable pub move_home : InputEditor → InputEditor
move_home e = record e { cursor_byte = 0 }

unfoldable pub move_end : InputEditor → InputEditor
move_end e = record e { cursor_byte = byte_len e.buffer }

-- `while i > 0 && test(chars[i - 1].1) { i -= 1; }`; the round under the loop is an index.
unfoldable pub walk_left : (ℕ → Bool) → List (ℕ × ℕ) → ℕ → Option ℕ
walk_left test chars zero = some 0
walk_left test chars (suc i) =
    let rest = walk_left test chars i in
    elim (get_elem? chars i) [ none ↦ none | some p ↦ if test p.1 then rest else some (suc i) ]

-- The start of the word to the left of the end of `head`.
unfoldable pub word_start : List ℕ → Option ℕ
word_start head =
    let chars = char_indices 0 head in
    do
      i ← walk_left is_whitespace chars (length chars)
      j ← walk_left (λ c. not (is_whitespace c)) chars i
      some (unwrap_or (Option.map (λ p. p.0) (get_elem? chars j)) 0)

unfoldable pub delete_word_back_here : InputEditor → Option InputEditor
delete_word_back_here e = if e.cursor_byte == 0 then some e else (do
  (head, _) ← split_at e.cursor_byte e.buffer
  start ← word_start head
  cut_back_to start e)

unfoldable pub delete_word_back : InputEditor → Option InputEditor
delete_word_back e = delete_word_back_here (exit_history_browse_if_needed e)

unfoldable pub delete_to_start : InputEditor → Option InputEditor
delete_to_start e = cut_back_to 0 (exit_history_browse_if_needed e)

-- `String::truncate`, which does nothing past the end and panics off a boundary.
unfoldable pub delete_to_end_here : InputEditor → Option InputEditor
delete_to_end_here e =
    if ltb (byte_len e.buffer) e.cursor_byte
    then some e
    else (do (head, _) ← split_at e.cursor_byte e.buffer; some (record e { buffer = head }))

unfoldable pub delete_to_end : InputEditor → Option InputEditor
delete_to_end e = delete_to_end_here (exit_history_browse_if_needed e)

unfoldable pub clear : InputEditor → InputEditor
clear e = record (exit_history_browse_if_needed e) { buffer = []; cursor_byte = 0 }
