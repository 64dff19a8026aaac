-- ===== src/Editor/Safety.antt =====
-- No call panics on a valid editor, and each leaves a valid editor.
mod Lines
mod Browsing
pub use Lines.{ends_in_word}
use Lines.{
  insert_char-Safe, insert_str-Safe, backspace-Safe, delete-Safe, move_left-Safe, move_right-Safe,
  delete_word_back-Safe, delete_to_start-Safe, delete_to_end-Safe,
}
use Browsing.{
  history_prev-Safe, history_next-Safe, begin_search-IsValid, search_input-IsValid,
  search_backspace-IsValid, search_accept-Safe, search_cancel-IsValid, submit-IsValid,
}
use project_willamette.Prelude.{
  ℕ, ◌≡◌, refl, sym, arith, Option, none, some, List, [], ◌∷◌, ◌>>=◌, min, take, length-take,
}
use project_willamette.Editor.Text.{byte_len}
use project_willamette.Editor.State.{InputEditor, with_history, history_cap}
use project_willamette.Editor.Operations.{
  move_home, move_end, clear, insert_char, insert_str, backspace, delete, move_left, move_right,
  delete_word_back, delete_to_start, delete_to_end,
}
use project_willamette.Editor.Calls.{Call, call, session}
use project_willamette.Editor.Calls
use project_willamette.Editor.Valid.{IsValid, Safe, Safe-of_placed, placed-IsValid, edited-Sound}
use project_willamette.Editor.Cursor.{edited}
use mathlib.Core.List.{append-nil}

home-IsValid : (e : InputEditor) → IsValid e → IsValid (move_home e)
unfolding move_home byte_len
home-IsValid e v = record {
  before = [];
  behind = e.buffer;
  line = refl;
  cursor = refl;
  sound = v.sound;
}

end-IsValid : (e : InputEditor) → IsValid e → IsValid (move_end e)
unfolding move_end
end-IsValid e v = record {
  before = e.buffer;
  behind = [];
  line = sym (append-nil e.buffer);
  cursor = refl;
  sound = v.sound;
}

clear-IsValid : (e : InputEditor) → IsValid e → IsValid (clear e)
unfolding clear byte_len
clear-IsValid e v = record {
  before = [];
  behind = [];
  line = refl;
  cursor = refl;
  sound = edited-Sound e v.sound;
}

-- Every call on a valid editor returns, and what it returns is a valid editor.
pub call-Safe : (c : Call) (e : InputEditor) → IsValid e → Safe (call c e)
unfolding call
call-Safe (Call.typed c) e v = Safe-of_placed (insert_char c) v (insert_char-Safe e v.sound c)
call-Safe (Call.pasted s) e v = Safe-of_placed (insert_str s) v (insert_str-Safe e v.sound s)
call-Safe Call.erase_left e v = Safe-of_placed backspace v (backspace-Safe e v.sound)
call-Safe Call.erase_right e v = Safe-of_placed delete v (delete-Safe e v.sound)
call-Safe Call.left e v = Safe-of_placed move_left v (move_left-Safe e v.sound)
call-Safe Call.right e v = Safe-of_placed move_right v (move_right-Safe e v.sound)
call-Safe Call.home e v = home-IsValid e v
call-Safe Call.end e v = end-IsValid e v
call-Safe Call.kill_word e v = Safe-of_placed delete_word_back v (delete_word_back-Safe e v.sound)
call-Safe Call.kill_start e v = Safe-of_placed delete_to_start v (delete_to_start-Safe e v.sound)
call-Safe Call.kill_end e v = Safe-of_placed delete_to_end v (delete_to_end-Safe e v.sound)
call-Safe Call.wipe e v = clear-IsValid e v
call-Safe Call.up e v = history_prev-Safe e v
call-Safe Call.down e v = history_next-Safe e v
call-Safe Call.start_search e v = begin_search-IsValid e v
call-Safe (Call.search_typed c) e v = search_input-IsValid c e v
call-Safe Call.search_erase e v = search_backspace-IsValid e v
call-Safe Call.accept e v = search_accept-Safe e v
call-Safe Call.cancel e v = search_cancel-IsValid e v
call-Safe Call.enter e v = submit-IsValid e v

pub with_history-IsValid : (history : List (List ℕ)) → IsValid (with_history history)
unfolding byte_len
with_history-IsValid history = record {
  before = [];
  behind = [];
  line = refl;
  cursor = refl;
  sound = record {
    within = omega (arith, length-take history_cap history);
    browsing = λ i p. cc;
    saving = refl;
    found = λ s i p. cc;
  };
}

continue-Safe :
    (cs : List Call) (o : Option InputEditor)
    → ((e : InputEditor) → IsValid e → Safe (session cs e))
    → Safe o
    → Safe (o >>= session cs)
continue-Safe cs none rest h = h
continue-Safe cs (some e) rest h = rest e h

pub session-IsValid : (cs : List Call) (e : InputEditor) → IsValid e → Safe (session cs e)
unfolding session
session-IsValid [] e v = v
session-IsValid (c ∷ cs) e v = continue-Safe cs (call c e) (session-IsValid cs) (call-Safe c e v)

-- From a fresh editor with any persisted history, no sequence of calls panics, and the editor that
-- it leaves satisfies the invariant.
pub session-Safe :
    (history : List (List ℕ)) (cs : List Call) → Safe (session cs (with_history history))
session-Safe history cs = session-IsValid cs (with_history history) (with_history-IsValid history)
