-- ===== src/Editor/Browse.antt =====
-- Up and Down: what is shown while the history is browsed, and the way back.
use project_willamette.Prelude.{
  ℕ, zero, suc, ◌+◌, ◌<◌, ◌≡◌, refl, ap, ◌∙◌, arith, none, some, List, [], ◌∷◌, length, get_elem?,
  get_elem?-lt, ltb, ◌==◌, if◌then◌else◌, false, replicate, ◌++◌,
}
use project_willamette.Editor.Text.{byte_len}
use project_willamette.Editor.State.{InputEditor}
use project_willamette.Editor.Operations.{unwrap_or}
use project_willamette.Editor.Calls.{Call, call, session}
use project_willamette.Editor.History.{
  show_entry, browse_from, history_prev, browse_newer, history_next,
}

-- The editor `e`, which was not browsing, with entry `i` of its history on display.
abbrev pub browsing : InputEditor → ℕ → List ℕ → InputEditor
browsing e i entry = record e {
  buffer = entry;
  cursor_byte = byte_len entry;
  history_cursor = some i;
  saved_for_history = some e.buffer;
}

-- The editor `e` on its own line again, the cursor at the end.
abbrev pub resumed : InputEditor → InputEditor
resumed e = record e {
  cursor_byte = byte_len e.buffer;
  history_cursor = none;
  saved_for_history = none;
}

-- The entry at an index in range, and nothing out of range.
abbrev pub entry_at : List (List ℕ) → ℕ → List ℕ
entry_at history i = unwrap_or (get_elem? history i) []

pub get-entry_at :
    (history : List (List ℕ)) (i : ℕ)
    → i < length history
    → get_elem? history i ≡ some (entry_at history i)
get-entry_at history i h = let (x, e) = get_elem?-lt history i h in rw e

not_empty : (n i : ℕ) → i < n → (n == 0) ≡ false
not_empty n i h = ground arith

pub prev-first :
    (e : InputEditor)
    → e.history_cursor ≡ none
    → 0 < length e.history
    → history_prev e ≡ some (browsing e 0 (entry_at e.history 0))
unfolding history_prev browse_from show_entry
prev-first e fresh h = rw (not_empty _ 0 h, browse_from, fresh, get-entry_at e.history 0 h)

older_index : (i n : ℕ) → suc i < n → (if ltb (i + 1) n then i + 1 else i) ≡ suc i
older_index i n h = ground arith

pub prev-older :
    (e : InputEditor) (i : ℕ) (x : List ℕ)
    → suc i < length e.history
    → history_prev (browsing e i x) ≡ some (browsing e (suc i) (entry_at e.history (suc i)))
unfolding history_prev browse_from show_entry
prev-older e i x h = rw (not_empty _ (suc i) h, older_index i _ h, get-entry_at e.history (suc i) h)

pub next-newer :
    (e : InputEditor) (i : ℕ) (x : List ℕ)
    → i < length e.history
    → history_next (browsing e (suc i) x) ≡ some (browsing e i (entry_at e.history i))
unfolding history_next browse_newer show_entry
next-newer e i x h = rw (get-entry_at e.history i h)

pub next-last : (e : InputEditor) (x : List ℕ) → history_next (browsing e 0 x) ≡ some (resumed e)
unfolding history_next browse_newer
next-last e x = refl

-- One more press at the front is one more at the end.
replicate-shift {ℓ} :
    {A : Type ℓ} (n : ℕ) (a : A) (rest : List A)
    → replicate (suc n) a ++ rest ≡ replicate n a ++ a ∷ rest
replicate-shift zero a rest = refl
replicate-shift (suc n) a rest = ap (λ l. a ∷ l) (replicate-shift n a rest)

-- The presses of Up then Down around the rest of a session.
abbrev pub there_and_back : ℕ → List Call → List Call
there_and_back n rest = replicate n Call.up ++ (replicate n Call.down ++ rest)

session_step :
    (c : Call) (cs : List Call) (e e' : InputEditor)
    → call c e ≡ some e'
    → session (c ∷ cs) e ≡ session cs e'
unfolding session
session_step c cs e e' h = rw h

-- After one press of Up the presses within are those of one round less.
around :
    (n : ℕ) (rest : List Call) (e e' : InputEditor)
    → call Call.up e ≡ some e'
    → session (there_and_back (suc n) rest) e ≡ session (there_and_back n (Call.down ∷ rest)) e'
around n rest e e' h =
    session_step Call.up _ e e' h
    ∙ ap (λ l. session (replicate n Call.up ++ l) e') (replicate-shift n Call.down rest)

abbrev showing : InputEditor → ℕ → InputEditor
showing e i = browsing e i (entry_at e.history i)

older_and_back :
    (n i : ℕ) (e : InputEditor) (rest : List Call)
    → i + n < length e.history
    → session (there_and_back n rest) (showing e i) ≡ session rest (showing e i)
unfolding call
older_and_back zero i e rest h = refl
older_and_back (suc n) i e rest h =
    around n rest (showing e i) (showing e (suc i)) (prev-older e i _ (omega arith))
    ∙ older_and_back n (suc i) e (Call.down ∷ rest) (omega arith)
    ∙ session_step Call.down rest (showing e (suc i)) (showing e i) (next-newer e i _ (omega arith))

-- From a line that is not browsed, as many presses of Up as there are entries at most, and then as
-- many of Down, give back the line, with the cursor at its end, and the session goes on from there.
pub up_down_restores :
    (n : ℕ) (e : InputEditor) (rest : List Call)
    → e.history_cursor ≡ none
    → n < length e.history
    → session (there_and_back (suc n) rest) e ≡ session rest (resumed e)
unfolding call
up_down_restores n e rest fresh h =
    around n rest e (showing e 0) (prev-first e fresh (omega arith))
    ∙ older_and_back n 0 e (Call.down ∷ rest) (omega arith)
    ∙ session_step Call.down rest (showing e 0) (resumed e) (next-last e _)
