-- ===== src/Editor/Calls.antt =====
-- The calls that the interface makes on an editor, and a session as a sequence of them.
use project_willamette.Prelude.{ℕ, Option, some, List, [], ◌∷◌, ◌>>=◌}
use project_willamette.Editor.State.{InputEditor}
use project_willamette.Editor.Operations.{
  insert_char, insert_str, backspace, delete, move_left, move_right, move_home, move_end,
  delete_word_back, delete_to_start, delete_to_end, clear,
}
use project_willamette.Editor.History.{
  history_prev, history_next, begin_search, search_input, search_backspace, search_accept,
  search_cancel, submit,
}

-- One constructor for each method that changes the editor.
pub data Call : Type 0 where
  typed : ℕ → Call
  pasted : List ℕ → Call
  erase_left erase_right left right home end : Call
  kill_word kill_start kill_end wipe : Call
  up down : Call
  start_search : Call
  search_typed : ℕ → Call
  search_erase accept cancel enter : Call

unfoldable pub call : Call → InputEditor → Option InputEditor
call (typed c) e = insert_char c e
call (pasted s) e = insert_str s e
call erase_left e = backspace e
call erase_right e = delete e
call left e = move_left e
call right e = move_right e
call home e = some (move_home e)
call end e = some (move_end e)
call kill_word e = delete_word_back e
call kill_start e = delete_to_start e
call kill_end e = delete_to_end e
call wipe e = some (clear e)
call up e = history_prev e
call down e = history_next e
call start_search e = some (begin_search e)
call (search_typed c) e = some (search_input c e)
call search_erase e = some (search_backspace e)
call accept e = search_accept e
call cancel e = some (search_cancel e)
call enter e = some (submit e).0

-- A session stops at the first panic.
unfoldable pub session : List Call → InputEditor → Option InputEditor
session [] e = some e
session (c ∷ cs) e = call c e >>= session cs
