-- ===== src/Editor/Search.antt =====
-- The reverse search and `submit`: which entry matches, and what a submitted line leaves behind.
use project_willamette.Prelude.{
  ℕ, zero, suc, ◌+◌, ◌-◌, ◌≤◌, ◌<◌, ◌≡◌, refl, sym, ap, ◌∙◌, arith, Option, none, some, List, [],
  ◌∷◌, length, drop, take, get_elem?, true, false, Bool-cases, inl, inr, ◌↔◌, ◌≢◌, ◌==◌,
}
use project_willamette.Editor.Text.{byte_len, contains, text_eq}
use project_willamette.Editor.Boundaries.{byte_len_pos}
use project_willamette.Editor.State.{history_cap, SearchState, InputEditor, new}
use project_willamette.Editor.Operations.{unwrap_or}
use project_willamette.Editor.History.{
  find_entry, refresh_match, older_match, remember, is_front, submit,
}
use project_willamette.Editor.Eviction.{evict-eq-take}
use mathlib.Core.Option

-- `m` is the newest entry from index `from` on that contains the needle, if there is one.
abbrev pub Newest : List ℕ → ℕ → List (List ℕ) → Option ℕ → Type 0
Newest needle from history none =
    (j : ℕ) (x : List ℕ) → from ≤ j → get_elem? history j ≡ some x → contains needle x ≡ false
Newest needle from history (some k) =
    (from ≤ k)
    × ((x : List ℕ) × (get_elem? history k ≡ some x) × (contains needle x ≡ true))
    × ((j : ℕ) (x : List ℕ)
        → from ≤ j
        → j < k
        → get_elem? history j ≡ some x
        → contains needle x ≡ false)

-- The entry `p` of a list holds the needle, and no entry before it does.
record FoundAt (needle : List ℕ) (history : List (List ℕ)) (p : ℕ) : Type 0 where
  entry : List ℕ
  at : get_elem? history p ≡ some entry
  hit : contains needle entry ≡ true
  misses : (q : ℕ) (x : List ℕ) → q < p → get_elem? history q ≡ some x → contains needle x ≡ false

FoundAt-cons :
    (needle x : List ℕ) (history : List (List ℕ)) (p : ℕ)
    → contains needle x ≡ false
    → FoundAt needle history p
    → FoundAt needle (x ∷ history) (suc p)
FoundAt-cons needle x history p miss f = record {
  entry = f.entry;
  at = f.at;
  hit = f.hit;
  misses = elim [ zero ↦ λ y lt e. ground arith | suc q ↦ λ y lt e. f.misses q y (omega arith) e ];
}

find_some :
    (needle : List ℕ) (i : ℕ) (history : List (List ℕ)) (k : ℕ)
    → find_entry needle i history ≡ some k
    → (p : ℕ) × (k ≡ i + p) × FoundAt needle history p
unfolding find_entry
find_some needle i [] k h = cc
find_some needle i (x ∷ xs) k h = elim (Bool-cases (contains needle x)) [
  | inl hit ↦ (
    0,
    ground arith,
    record { entry = x; at = refl; hit = hit; misses = λ q y lt e. elim lt [ ] },
  )
  | inr miss ↦
      let (p, e, f) = find_some needle (i + 1) xs k (ground arith) in
      (suc p, omega arith, FoundAt-cons needle x xs p miss f)
]

find_none :
    (needle : List ℕ) (i : ℕ) (history : List (List ℕ))
    → find_entry needle i history ≡ none
    → (q : ℕ) (x : List ℕ) → get_elem? history q ≡ some x
    → contains needle x ≡ false
unfolding find_entry
find_none needle i [] h q x e = cc
find_none needle i (y ∷ ys) h zero x e = ground arith
find_none needle i (y ∷ ys) h (suc q) x e = find_none needle (i + 1) ys (ground arith) q x e

get-drop {ℓ} :
    {A : Type ℓ} (n : ℕ) (xs : List A) (q : ℕ) → get_elem? (drop n xs) q ≡ get_elem? xs (n + q)
get-drop zero xs q = ap (get_elem? xs) {x = q} {y = zero + q} (omega arith)
get-drop (suc n) [] q = refl
get-drop (suc n) (x ∷ xs) q =
    get-drop n xs q ∙ ap (get_elem? (x ∷ xs)) {x = suc (n + q)} {y = suc n + q} (omega arith)

get-drop_sub :
    (n j : ℕ) (xs : List (List ℕ)) → n ≤ j → get_elem? (drop n xs) (j - n) ≡ get_elem? xs j
get-drop_sub n j xs h =
    get-drop n xs (j - n) ∙ ap (get_elem? xs) {x = n + (j - n)} {y = j} (omega arith)

-- A search from `from` on finds the newest match there.
find_entry-Newest :
    (needle : List ℕ) (from : ℕ) (history : List (List ℕ))
    → Newest needle from history (find_entry needle from (drop from history))
find_entry-Newest needle from history = go (find_entry needle from (drop from history)) refl
  where
    go :
        (m : Option ℕ)
        → find_entry needle from (drop from history) ≡ m
        → Newest needle from history m
    go none e = λ j x le at.
        find_none needle from (drop from history) e (j - from) x
          (get-drop_sub from j history le ∙ at)
    go (some k) e =
        let (p, k_eq, f) = find_some needle from (drop from history) k e in
        (
          omega arith,
          (f.entry, ap (get_elem? history) k_eq ∙ sym (get-drop from history p) ∙ f.at, f.hit),
          λ j x le lt at. f.misses (j - from) x (omega arith) (get-drop_sub from j history le ∙ at),
        )

-- The index from which Ctrl-R goes on: behind the match, or the front if there is none.
abbrev pub resume_from : Option ℕ → ℕ
resume_from m = unwrap_or (Option.map (λ i. i + 1) m) 0

needle_typed : (c : ℕ) (s : List ℕ) → (byte_len (c ∷ s) == 0) ≡ false
needle_typed c s = ground (arith, byte_len_pos c s)

-- With a needle, typing or erasing finds the newest entry that contains it, and Ctrl-R the next
-- older one; with none, there is no match to type towards and Ctrl-R changes nothing.
pub search_finds-Newest :
    (history : List (List ℕ)) (s : SearchState) (c : ℕ) (t : List ℕ)
    → s.needle ≡ c ∷ t
    → Newest s.needle 0 history (refresh_match history s).match_idx
      × Newest s.needle (resume_from s.match_idx) history (older_match history s).match_idx
unfolding refresh_match older_match
search_finds-Newest history s c t e =
    let some_needle : (byte_len s.needle == 0) ≡ false = rw e (needle_typed c t) in
    rw some_needle (
      find_entry-Newest s.needle 0 history,
      find_entry-Newest s.needle (resume_from s.match_idx) history,
    )

-- `==` on texts decides equality.
pub text_eq_iff : (s t : List ℕ) → (text_eq s t ≡ true) ↔ (s ≡ t)
unfolding text_eq
text_eq_iff [] [] = (λ h. refl, λ h. refl)
text_eq_iff [] (b ∷ t) = (λ h. cc, λ h. cc)
text_eq_iff (a ∷ s) [] = (λ h. cc, λ h. cc)
text_eq_iff (a ∷ s) (b ∷ t) =
    (λ h. ground (arith, (text_eq_iff s t).0), λ h. ground (arith, (text_eq_iff s t).1))

remember-empty : (history : List (List ℕ)) → remember [] history ≡ history
unfolding remember byte_len
remember-empty history = refl

remember-repeated :
    (line : List ℕ) (rest : List (List ℕ)) → remember line (line ∷ rest) ≡ line ∷ rest
unfolding remember is_front
remember-repeated line rest = ground (arith, (text_eq_iff line line).1 refl)

not_front :
    (history : List (List ℕ)) (line : List ℕ)
    → ((rest : List (List ℕ)) → history ≢ line ∷ rest)
    → is_front history line ≡ false
unfolding is_front
not_front [] line h = refl
not_front (newest ∷ rest) line h = elim (Bool-cases (text_eq newest line)) [
  | inl same ↦ absurd (h rest (ap (λ x. x ∷ rest) ((text_eq_iff newest line).0 same)))
  | inr other ↦ other
]

not_empty : (line : List ℕ) → line ≢ [] → (byte_len line == 0) ≡ false
not_empty [] h = absurd (h refl)
not_empty (c ∷ s) h = needle_typed c s

-- Any other line enters the history in front, and the newest entries are kept, up to the cap; Enter
-- returns the line and leaves the editor empty, on its own line, with no search.
pub submit_remembers :
    (e : InputEditor)
    → e.buffer ≢ []
    → ((rest : List (List ℕ)) → e.history ≢ e.buffer ∷ rest)
    → submit e ≡ (record new { history = take history_cap (e.buffer ∷ e.history) }, e.buffer)
unfolding submit remember
submit_remembers e full fresh =
    rw (not_empty e.buffer full, not_front e.history e.buffer fresh)
      (rw (evict-eq-take (length (e.buffer ∷ e.history)) (e.buffer ∷ e.history) (omega arith)))
