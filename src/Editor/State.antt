-- ===== src/Editor/State.antt =====
-- The state of the editor: `SearchState`, `InputEditor` and their constructors.
use project_willamette.Prelude.{ℕ, Option, none, List, [], take}

-- HISTORY_CAP
abbrev pub history_cap : ℕ
history_cap = 1000

pub record SearchState : Type 0 where
  pub needle : List ℕ
  pub match_idx : Option ℕ

pub record InputEditor : Type 0 where
  pub buffer : List ℕ
  pub cursor_byte : ℕ
  pub history : List (List ℕ)
  pub history_cursor : Option ℕ
  pub saved_for_history : Option (List ℕ)
  pub search : Option SearchState

abbrev pub new_search : SearchState
new_search = record { needle = []; match_idx = none }

abbrev pub new : InputEditor
new = record {
  buffer = [];
  cursor_byte = 0;
  history = [];
  history_cursor = none;
  saved_for_history = none;
  search = none;
}

abbrev pub with_history : List (List ℕ) → InputEditor
with_history history = record new { history = take history_cap history }
