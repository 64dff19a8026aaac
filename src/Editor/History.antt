-- ===== src/Editor/History.antt =====
-- The methods of `InputEditor` that browse and search the history, and `submit`.
-- `none` where the source would panic on an index out of range.
use project_willamette.Prelude.{
  ℕ, zero, suc, ◌+◌, Bool, not, ◌&&◌, Option, none, some, List, [], ◌∷◌, ltb, ◌==◌, if◌then◌else◌,
  length, get_elem?, drop, ◌>>=◌,
}
use project_willamette.Editor.Text.{byte_len, text_eq, contains}
use project_willamette.Editor.State.{history_cap, SearchState, InputEditor, new_search}
use project_willamette.Editor.Operations.{unwrap_or}
use mathlib.Core.Option

-- `self.buffer = self.history[i].clone(); self.cursor_byte = self.buffer.len()`.
unfoldable pub show_entry : ℕ → InputEditor → Option InputEditor
show_entry i e = do
  entry ← get_elem? e.history i
  some (record e { buffer = entry; cursor_byte = byte_len entry })

-- The state at the first Up is saved; further presses move towards the oldest entry.
unfoldable pub browse_from : Option ℕ → InputEditor → InputEditor
browse_from none e = record e {
  buffer = [];
  saved_for_history = some e.buffer;
  history_cursor = some 0;
}
browse_from (some i) e = record e {
  history_cursor = some (if ltb (i + 1) (length e.history) then i + 1 else i);
}

unfoldable pub history_prev : InputEditor → Option InputEditor
history_prev e =
    if length e.history == 0
    then some e
    else (do let e' = browse_from e.history_cursor e; i ← e'.history_cursor; show_entry i e')

unfoldable pub browse_newer : Option ℕ → InputEditor → Option InputEditor
browse_newer none e = some e
browse_newer (some zero) e =
    let line = unwrap_or e.saved_for_history [] in
    some (record e {
      buffer = line;
      cursor_byte = byte_len line;
      history_cursor = none;
      saved_for_history = none;
    })
browse_newer (some (suc i)) e = show_entry i (record e { history_cursor = some i })

unfoldable pub history_next : InputEditor → Option InputEditor
history_next e = browse_newer e.history_cursor e

-- The index of the first entry that contains the needle, counted from `i`.
unfoldable pub find_entry : List ℕ → ℕ → List (List ℕ) → Option ℕ
find_entry needle i [] = none
find_entry needle i (entry ∷ rest) =
    if contains needle entry then some i else find_entry needle (i + 1) rest

unfoldable pub refresh_match : List (List ℕ) → SearchState → SearchState
refresh_match history s =
    if byte_len s.needle == 0
    then record s { match_idx = none }
    else record s { match_idx = find_entry s.needle 0 history }

unfoldable pub refresh_search_match : InputEditor → InputEditor
refresh_search_match e = record e { search = Option.map (refresh_match e.history) e.search }

-- `skip(from)` over the enumerated history keeps the indices.
unfoldable pub older_match : List (List ℕ) → SearchState → SearchState
older_match history s =
    let from = unwrap_or (Option.map (λ i. i + 1) s.match_idx) 0 in
    if byte_len s.needle == 0
    then s
    else record s { match_idx = find_entry s.needle from (drop from history) }

unfoldable pub search_step_older : InputEditor → InputEditor
search_step_older e = record e { search = Option.map (older_match e.history) e.search }

unfoldable pub begin_search : InputEditor → InputEditor
begin_search e = elim e.search [
  | none ↦ refresh_search_match (record e { search = some new_search })
  | some s ↦ search_step_older e
]

-- `String::push` and `String::pop`.
unfoldable pub push_char : List ℕ → ℕ → List ℕ
push_char [] c = c ∷ []
push_char (d ∷ s) c = d ∷ push_char s c

unfoldable pub pop_last {ℓ} : {A : Type ℓ} → List A → List A
pop_last [] = []
pop_last (x ∷ []) = []
pop_last (x ∷ y ∷ ys) = x ∷ pop_last (y ∷ ys)

unfoldable pub search_input : ℕ → InputEditor → InputEditor
search_input c e = elim e.search [
  | none ↦ e
  | some s ↦
      refresh_search_match (record e { search = some (record s { needle = push_char s.needle c }) })
]

unfoldable pub search_backspace : InputEditor → InputEditor
search_backspace e = elim e.search [
  | none ↦ e
  | some s ↦
      refresh_search_match (record e { search = some (record s { needle = pop_last s.needle }) })
]

unfoldable pub accept_match : Option ℕ → InputEditor → Option InputEditor
accept_match none e = some e
accept_match (some i) e = show_entry i e

unfoldable pub search_accept : InputEditor → Option InputEditor
search_accept e = elim e.search [
  | none ↦ some e
  | some s ↦ accept_match s.match_idx (record e { search = none })
]

unfoldable pub search_cancel : InputEditor → InputEditor
search_cancel e = record e { search = none }

-- `while history.len() > HISTORY_CAP { history.pop_back(); }` on fuel.
unfoldable pub evict : ℕ → List (List ℕ) → List (List ℕ)
evict zero history = history
evict (suc fuel) history =
    let rest = evict fuel (pop_last history) in
    if ltb history_cap (length history) then rest else history

-- `history.front() == Some(line)`.
unfoldable pub is_front : List (List ℕ) → List ℕ → Bool
is_front [] line = Bool.false
is_front (newest ∷ _) line = text_eq newest line

-- Each round of the eviction drops an entry, so as many rounds as there are entries are enough.
unfoldable pub remember : List ℕ → List (List ℕ) → List (List ℕ)
remember line history =
    if not (byte_len line == 0) && not (is_front history line)
    then evict (length (line ∷ history)) (line ∷ history)
    else history

unfoldable pub submit : InputEditor → InputEditor × List ℕ
submit e =
    let line = e.buffer in
    (
      record e {
        buffer = [];
        cursor_byte = 0;
        history = remember line e.history;
        history_cursor = none;
        saved_for_history = none;
        search = none;
      },
      line,
    )
