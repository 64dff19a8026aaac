-- ===== src/Editor/Safety/Browsing.antt =====
-- The calls that browse or search the history, and `submit`.
use project_willamette.Prelude.{
  ℕ, zero, suc, ◌+◌, ◌≤◌, ◌<◌, ◌≡◌, refl, sym, ap, ◌∙◌, arith, Option, none, some, List, [], ◌∷◌,
  length, drop, length-drop, get_elem?-lt, Bool-cases, inl, inr, is_some, ltb, ◌==◌, if◌then◌else◌,
  ◌>>=◌,
}
use project_willamette.Editor.Text.{byte_len}
use project_willamette.Editor.State.{SearchState, InputEditor, new_search}
use project_willamette.Editor.Operations.{unwrap_or}
use project_willamette.Editor.History.{
  show_entry, browse_from, history_prev, browse_newer, history_next, find_entry, refresh_match,
  refresh_search_match, older_match, search_step_older, begin_search, search_input,
  search_backspace, accept_match, search_accept, search_cancel, submit,
}
use project_willamette.Editor.Eviction.{length-remember}
use project_willamette.Editor.Valid.{Sound, IsValid, Safe}
use mathlib.Core.List.{append-nil}
use mathlib.Core.Option
use mathlib.Core.Option.{some_inj}

pub show_entry-Safe :
    (i : ℕ) (e : InputEditor) → Sound e → i < length e.history → Safe (show_entry i e)
unfolding show_entry
show_entry-Safe i e h lt =
    let (entry, at) = get_elem?-lt e.history i lt in
    rw at (record {
      before = entry;
      behind = [];
      line = sym (append-nil entry);
      cursor = refl;
      sound = h;
    })

-- A match is an index from `i` on into what is searched.
pub find_entry_bounds :
    (needle : List ℕ) (i : ℕ) (history : List (List ℕ)) (k : ℕ)
    → find_entry needle i history ≡ some k
    → (i ≤ k) × (k < i + length history)
unfolding find_entry
find_entry_bounds needle i [] k h = cc
find_entry_bounds needle i (entry ∷ rest) k h =
    ground (arith, find_entry_bounds needle (i + 1) rest k)

index_below : (j k n : ℕ) → some j ≡ some k → j < n → k < n
index_below j k n p h = ground arith

prev_Safe :
    (at : Option ℕ) (e : InputEditor)
    → e.history_cursor ≡ at
    → IsValid e
    → 0 < length e.history
    → Safe (let e' = browse_from at e in e'.history_cursor >>= λ i. show_entry i e')
unfolding browse_from
prev_Safe none e eq v pos =
    show_entry-Safe 0 _
      (record {
        within = v.sound.within;
        browsing = λ i p. ground arith;
        saving = refl;
        found = v.sound.found;
      })
      pos
prev_Safe (some i) e eq v pos =
    let j : ℕ = if ltb (i + 1) (length e.history) then i + 1 else i in
    let inside : j < length e.history = ground (arith, v.sound.browsing i eq) in
    show_entry-Safe j _
      (record {
        within = v.sound.within;
        browsing = λ k p. index_below j k _ p inside;
        saving = v.sound.saving ∙ ap is_some eq;
        found = v.sound.found;
      })
      inside

pub history_prev-Safe : (e : InputEditor) → IsValid e → Safe (history_prev e)
unfolding history_prev
history_prev-Safe e v = elim (Bool-cases (length e.history == 0)) [
  | inl empty ↦ rw empty v
  | inr more ↦ rw more (prev_Safe e.history_cursor e refl v (ground arith))
]

next_Safe :
    (at : Option ℕ) (e : InputEditor) → e.history_cursor ≡ at → IsValid e → Safe (browse_newer at e)
unfolding browse_newer
next_Safe none e eq v = v
next_Safe (some zero) e eq v = record {
  before = unwrap_or e.saved_for_history [];
  behind = [];
  line = sym (append-nil _);
  cursor = refl;
  sound = record {
    within = v.sound.within;
    browsing = λ i p. cc;
    saving = refl;
    found = v.sound.found;
  };
}
next_Safe (some (suc i)) e eq v =
    let inside : i < length e.history = omega (arith, v.sound.browsing (suc i) eq) in
    show_entry-Safe i _
      (record {
        within = v.sound.within;
        browsing = λ k p. index_below i k _ p inside;
        saving = v.sound.saving ∙ ap is_some eq;
        found = v.sound.found;
      })
      inside

pub history_next-Safe : (e : InputEditor) → IsValid e → Safe (history_next e)
unfolding history_next
history_next-Safe e v = next_Safe e.history_cursor e refl v

-- The entry of a search state is in range.
abbrev MatchBelow : ℕ → SearchState → Type 0
MatchBelow n s = (i : ℕ) → s.match_idx ≡ some i → i < n

-- A change of the search state alone.
searching-IsValid :
    (e : InputEditor) (s : SearchState)
    → IsValid e
    → MatchBelow (length e.history) s
    → IsValid (record e { search = some s })
searching-IsValid e s v h = record {
  before = v.before;
  behind = v.behind;
  line = v.line;
  cursor = v.cursor;
  sound = record {
    within = v.sound.within;
    browsing = v.sound.browsing;
    saving = v.sound.saving;
    found = λ t i p q. h i (ap (λ (o : SearchState). o.match_idx) (some_inj.0 p) ∙ q);
  };
}

not_searching-IsValid : (e : InputEditor) → IsValid e → IsValid (record e { search = none })
not_searching-IsValid e v = record {
  before = v.before;
  behind = v.behind;
  line = v.line;
  cursor = v.cursor;
  sound = record {
    within = v.sound.within;
    browsing = v.sound.browsing;
    saving = v.sound.saving;
    found = λ s i p. cc;
  };
}

refresh_match_below :
    (history : List (List ℕ)) (s : SearchState)
    → MatchBelow (length history) (refresh_match history s)
unfolding refresh_match
refresh_match_below history s i h = ground (arith, find_entry_bounds s.needle 0 history i)

older_bound :
    (needle : List ℕ) (from : ℕ) (history : List (List ℕ)) (i : ℕ)
    → find_entry needle from (drop from history) ≡ some i
    → i < length history
older_bound needle from history i h =
    let (above, below) = find_entry_bounds needle from (drop from history) i h in
    omega (arith, length-drop from history)

older_match_below :
    (history : List (List ℕ)) (s : SearchState)
    → MatchBelow (length history) s
    → MatchBelow (length history) (older_match history s)
unfolding older_match
older_match_below history s below i h = ground (
  arith,
  below i,
  older_bound s.needle (unwrap_or (Option.map (λ k. k + 1) s.match_idx) 0) history i,
)

refreshed_IsValid :
    (e : InputEditor) (s : SearchState)
    → IsValid e
    → IsValid (refresh_search_match (record e { search = some s }))
unfolding refresh_search_match
refreshed_IsValid e s v = searching-IsValid e _ v (refresh_match_below e.history s)

begin_Safe :
    (o : Option SearchState) (e : InputEditor)
    → e.search ≡ o
    → IsValid e
    → IsValid (begin_search (record e { search = o }))
unfolding begin_search search_step_older
begin_Safe none e eq v = refreshed_IsValid e new_search v
begin_Safe (some s) e eq v =
    searching-IsValid e _ v (older_match_below e.history s (λ i p. v.sound.found s i eq p))

pub begin_search-IsValid : (e : InputEditor) → IsValid e → IsValid (begin_search e)
begin_search-IsValid e v = begin_Safe e.search e refl v

pub search_input-IsValid : (c : ℕ) (e : InputEditor) → IsValid e → IsValid (search_input c e)
search_input-IsValid c e v = go e.search e v
  where
    go :
        (o : Option SearchState) (e : InputEditor)
        → IsValid e
        → IsValid (search_input c (record e { search = o }))
    go none e v = unfold search_input in not_searching-IsValid e v
    go (some s) e v = unfold search_input in refreshed_IsValid e _ v

pub search_backspace-IsValid : (e : InputEditor) → IsValid e → IsValid (search_backspace e)
search_backspace-IsValid e v = go e.search e v
  where
    go :
        (o : Option SearchState) (e : InputEditor)
        → IsValid e
        → IsValid (search_backspace (record e { search = o }))
    go none e v = unfold search_backspace in not_searching-IsValid e v
    go (some s) e v = unfold search_backspace in refreshed_IsValid e _ v

accept_Safe :
    (o : Option SearchState) (e : InputEditor)
    → e.search ≡ o
    → IsValid e
    → Safe (search_accept (record e { search = o }))
unfolding search_accept
accept_Safe none e eq v = not_searching-IsValid e v
accept_Safe (some s) e eq v = match_Safe s.match_idx refl
  where
    match_Safe :
        (m : Option ℕ) → s.match_idx ≡ m → Safe (accept_match m (record e { search = none }))
    match_Safe none p = unfold accept_match in not_searching-IsValid e v
    match_Safe (some i) p =
        unfold accept_match in
        show_entry-Safe i (record e { search = none }) (not_searching-IsValid e v).sound
          (v.sound.found s i eq p)

pub search_accept-Safe : (e : InputEditor) → IsValid e → Safe (search_accept e)
search_accept-Safe e v = accept_Safe e.search e refl v

pub search_cancel-IsValid : (e : InputEditor) → IsValid e → IsValid (search_cancel e)
unfolding search_cancel
search_cancel-IsValid e v = not_searching-IsValid e v

pub submit-IsValid : (e : InputEditor) → IsValid e → IsValid (submit e).0
unfolding submit
submit-IsValid e v = record {
  before = [];
  behind = [];
  line = refl;
  cursor = unfold byte_len in refl;
  sound = record {
    within = length-remember e.buffer e.history v.sound.within;
    browsing = λ i p. cc;
    saving = refl;
    found = λ s i p. cc;
  };
}
