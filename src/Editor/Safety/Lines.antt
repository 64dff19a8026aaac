-- ===== src/Editor/Safety/Lines.antt =====
-- The calls that edit the line or move the cursor.
use project_willamette.Prelude.{
  ℕ, ◌≡◌, refl, sym, ap, ◌∙◌, arith, List, [], ◌∷◌, ◌++◌, ◌⊎◌, inl, inr, All, Bool, true, false,
  not, Bool-cases,
}
use project_willamette.Editor.Text.{is_whitespace}
use project_willamette.Editor.Boundaries.{List-ends}
use project_willamette.Editor.State.{InputEditor}
use project_willamette.Editor.Operations.{
  insert_char, insert_str, backspace, delete, move_left, move_right, delete_word_back,
  delete_to_start, delete_to_end,
}
use project_willamette.Editor.Cursor.{
  placed, edited, insert_char-placed, insert_str-placed, backspace-placed, backspace-start,
  delete-end, move_left-start, move_right-end, delete_to_start-placed, delete_to_end-placed,
  delete-placed, move_left-placed, move_right-placed,
}
use project_willamette.Editor.Words.{EndsInWord, delete_word_back-placed}
use project_willamette.Editor.Valid.{Sound, Safe, Safe-at, edited-Sound}
use mathlib.Core.List.{append-nil, append_assoc}
use mathlib.Core.Path.{subst}

-- The longest run at the end of `l` that passes the test, and what stands before it.
record Trailing (test : ℕ → Bool) (l : List ℕ) : Type 0 where
  front : List ℕ
  run : List ℕ
  whole : l ≡ front ++ run
  passes : All (λ c. test c ≡ true) run
  stops : (front ≡ []) ⊎ ((j : List ℕ) × (c : ℕ) × (front ≡ j ++ c ∷ []) × (test c ≡ false))

Trailing-step : (test : ℕ → Bool) (c : ℕ) (l : List ℕ) → Trailing test l → Trailing test (c ∷ l)
Trailing-step test c l t = elim t.stops [
  | inr (j, d, e, b) ↦ record {
    front = c ∷ t.front;
    run = t.run;
    whole = ap (λ x. c ∷ x) t.whole;
    passes = t.passes;
    stops = inr (c ∷ j, d, ap (λ x. c ∷ x) e, b);
  }
  | inl e ↦ elim (Bool-cases (test c)) [
    | inl b ↦ record {
      front = [];
      run = c ∷ t.run;
      whole = ap (λ x. c ∷ x) (t.whole ∙ ap (λ x. x ++ t.run) e);
      passes = (b, t.passes);
      stops = inl refl;
    }
    | inr b ↦ record {
      front = c ∷ [];
      run = t.run;
      whole = ap (λ x. c ∷ x) (t.whole ∙ ap (λ x. x ++ t.run) e);
      passes = t.passes;
      stops = inr ([], c, refl, b);
    }
  ]
]

trailing : (test : ℕ → Bool) (l : List ℕ) → Trailing test l
trailing test [] = record { front = []; run = []; whole = refl; passes = tt; stops = inl refl }
trailing test (c ∷ l) = Trailing-step test c l (trailing test l)

-- The last character.
last_or : ℕ → List ℕ → ℕ
last_or d [] = d
last_or d (c ∷ l) = last_or c l

last_or-snoc : (d : ℕ) (l : List ℕ) (c : ℕ) → last_or d (l ++ c ∷ []) ≡ c
unfolding last_or
last_or-snoc d [] c = refl
last_or-snoc d (b ∷ l) c = last_or-snoc b l c

not-false : (b : Bool) → not b ≡ false → b ≡ true
not-false b h = ground arith

All-not :
    (w : List ℕ) → All (λ c. not (is_whitespace c) ≡ true) w → All (λ c. is_whitespace c ≡ false) w
All-not [] h = tt
All-not (c ∷ w) (h, hs) = (ground arith, All-not w hs)

abbrev Stops : (ℕ → Bool) → List ℕ → Type 0
Stops test f = (f ≡ []) ⊎ ((j : List ℕ) × (c : ℕ) × (f ≡ j ++ c ∷ []) × (test c ≡ false))

-- A text cannot end both in white space and in something else.
no_word : (f : List ℕ) → Stops is_whitespace f → Stops (λ c. not (is_whitespace c)) f → f ≡ []
no_word f (inl e) t = e
no_word f (inr s) (inl e) = e
no_word f (inr (j, c, e, a)) (inr (k, d, e', b)) =
    let same : c ≡ d =
      sym (last_or-snoc 0 j c) ∙ ap (last_or 0) (sym e ∙ e') ∙ last_or-snoc 0 k d in
    let space : is_whitespace c ≡ true = rw same (not-false _ b) in cc

word_or_nothing :
    (f k w : List ℕ)
    → f ≡ k ++ w
    → Stops is_whitespace f
    → Stops (λ c. not (is_whitespace c)) k
    → (k ≡ []) ⊎ ((v : List ℕ) × (c : ℕ) × (w ≡ v ++ c ∷ []))
word_or_nothing f k [] whole s t =
    inl (no_word k (subst (Stops is_whitespace) (whole ∙ append-nil k) s) t)
word_or_nothing f k (c ∷ w) whole s t = elim (List-ends (c ∷ w)) [
  | inl e ↦ cc
  | inr (v, d, e) ↦ inr (v, d, e)
]

-- Every text ends in a word and white space, possibly empty.
pub ends_in_word :
    (head : List ℕ)
    → (k : List ℕ) × (w : List ℕ) × (s : List ℕ) × (head ≡ k ++ (w ++ s)) × EndsInWord k w s
ends_in_word head =
    let a : Trailing is_whitespace head = trailing is_whitespace head in
    let b : Trailing (λ c. not (is_whitespace c)) a.front =
      trailing (λ c. not (is_whitespace c)) a.front in
    (
      b.front,
      b.run,
      a.run,
      a.whole ∙ ap (λ x. x ++ a.run) b.whole ∙ append_assoc b.front b.run a.run,
      record {
        word = All-not b.run b.passes;
        space = a.passes;
        before = elim b.stops [ inl e ↦ inl e | inr (j, c, e, t) ↦ inr (j, c, e, not-false _ t) ];
        nonempty = word_or_nothing a.front b.front b.run b.whole a.stops b.stops;
      },
    )

module _ (e : InputEditor) (h : Sound e) where
  pub insert_char-Safe : (c : ℕ) (l r : List ℕ) → Safe (insert_char c (placed e l r))
  insert_char-Safe c l r =
      Safe-at (edited e) (l ++ c ∷ []) r (edited-Sound e h) (insert_char-placed e c l r)

  pub insert_str-Safe : (s l r : List ℕ) → Safe (insert_str s (placed e l r))
  insert_str-Safe s l r =
      Safe-at (edited e) (l ++ s) r (edited-Sound e h) (insert_str-placed e s l r)

  pub backspace-Safe : (l r : List ℕ) → Safe (backspace (placed e l r))
  backspace-Safe l r = elim (List-ends l) [
    | inl l_nil ↦ rw l_nil (Safe-at (edited e) [] r (edited-Sound e h) (backspace-start e r))
    | inr (k, c, l_eq) ↦
        rw l_eq (Safe-at (edited e) k r (edited-Sound e h) (backspace-placed e k r c))
  ]

  pub delete-Safe : (l r : List ℕ) → Safe (delete (placed e l r))
  delete-Safe l [] = Safe-at (edited e) l [] (edited-Sound e h) (delete-end e l)
  delete-Safe l (c ∷ r) = Safe-at (edited e) l r (edited-Sound e h) (delete-placed e l r c)

  pub move_left-Safe : (l r : List ℕ) → Safe (move_left (placed e l r))
  move_left-Safe l r = elim (List-ends l) [
    | inl l_nil ↦ rw l_nil (Safe-at e [] r h (move_left-start e r))
    | inr (k, c, l_eq) ↦ rw l_eq (Safe-at e k (c ∷ r) h (move_left-placed e k r c))
  ]

  pub move_right-Safe : (l r : List ℕ) → Safe (move_right (placed e l r))
  move_right-Safe l [] = Safe-at e l [] h (move_right-end e l)
  move_right-Safe l (c ∷ r) = Safe-at e (l ++ c ∷ []) r h (move_right-placed e l r c)

  pub delete_word_back-Safe : (l r : List ℕ) → Safe (delete_word_back (placed e l r))
  delete_word_back-Safe l r =
      let (k, w, s, l_eq, ends) = ends_in_word l in
      rw l_eq (Safe-at (edited e) k r (edited-Sound e h) (delete_word_back-placed e k w s r ends))

  pub delete_to_start-Safe : (l r : List ℕ) → Safe (delete_to_start (placed e l r))
  delete_to_start-Safe l r =
      Safe-at (edited e) [] r (edited-Sound e h) (delete_to_start-placed e l r)

  pub delete_to_end-Safe : (l r : List ℕ) → Safe (delete_to_end (placed e l r))
  delete_to_end-Safe l r = Safe-at (edited e) l [] (edited-Sound e h) (delete_to_end-placed e l r)
