-- ===== src/Editor/Words.antt =====
-- `delete_word_back`: where its two loops stop.
use project_willamette.Prelude.{
  ℕ, suc, ◌+◌, ◌≡◌, refl, sym, ap, ◌∙◌, arith, some, List, [], ◌∷◌, ◌++◌, ◌==◌, get_elem?, length,
  length-append, All, Bool, true, false, not, Bool-cases, ==_iff, ◌⊎◌, inl, inr,
}
use project_willamette.Editor.Text.{len_utf8, byte_len, char_indices, is_whitespace}
use project_willamette.Editor.Boundaries.{
  split_at-append, byte_len-append, byte_len-eq_zero, List-ends,
}
use project_willamette.Editor.State.{InputEditor}
use project_willamette.Editor.Operations.{
  walk_left, word_start, delete_word_back, delete_word_back_here, unwrap_or,
}
use project_willamette.Editor.Cursor.{placed, edited, exit-placed, cut-placed}
use mathlib.Core.List.{append_assoc, append-nil}
use mathlib.Core.Path.{subst}
use mathlib.Core.Option

char_at :
    (at : ℕ) (p : List ℕ) (c : ℕ) (q : List ℕ)
    → get_elem? (char_indices at (p ++ c ∷ q)) (length p) ≡ some (at + byte_len p, c)
unfolding char_indices byte_len
char_at at [] c q = ap (λ n. some (n, c)) (omega arith)
char_at at (d ∷ p) c q = char_at (at + len_utf8 d) p c q ∙ ap (λ n. some (n, c)) (omega arith)

module _ (test : ℕ → Bool) where
  walk_past :
      (p : List ℕ) (c : ℕ) (q : List ℕ)
      → test c ≡ true
      → walk_left test (char_indices 0 (p ++ c ∷ q)) (suc (length p))
        ≡ walk_left test (char_indices 0 (p ++ c ∷ q)) (length p)
  unfolding walk_left
  walk_past p c q h = rw (char_at, walk_left, h)

  walk_stops :
      (p : List ℕ) (c : ℕ) (q : List ℕ)
      → test c ≡ false
      → walk_left test (char_indices 0 (p ++ c ∷ q)) (suc (length p)) ≡ some (suc (length p))
  unfolding walk_left
  walk_stops p c q h = rw (char_at, walk_left, h)

  -- A run of characters that pass the test is walked over.
  walk_run :
      (p m q : List ℕ)
      → All (λ c. test c ≡ true) m
      → walk_left test (char_indices 0 (p ++ (m ++ q))) (length (p ++ m))
        ≡ walk_left test (char_indices 0 (p ++ (m ++ q))) (length p)
  walk_run p [] q h = rw append-nil
  walk_run p (c ∷ m) q h =
      let chars : List (ℕ × ℕ) = char_indices 0 (p ++ c ∷ (m ++ q)) in
      simp append_assoc at (walk_run (p ++ c ∷ []) m q h.1)
      ∙ ap (walk_left test chars) (omega (arith, length-append p (c ∷ [])))
      ∙ walk_past p c (m ++ q) h.0

-- The text before the cursor is `k`, a word and the white space behind it; `k` is empty or ends in
-- white space.
pub record EndsInWord (k w s : List ℕ) : Type 0 where
  pub word : All (λ c. is_whitespace c ≡ false) w
  pub space : All (λ c. is_whitespace c ≡ true) s
  pub before : (k ≡ []) ⊎ ((j : List ℕ) × (c : ℕ) × (k ≡ j ++ c ∷ []) × (is_whitespace c ≡ true))
  pub nonempty : (k ≡ []) ⊎ ((v : List ℕ) × (c : ℕ) × (w ≡ v ++ c ∷ []))

not_space :
    (w : List ℕ) → All (λ c. is_whitespace c ≡ false) w → All (λ c. not (is_whitespace c) ≡ true) w
not_space [] h = tt
not_space (c ∷ w) (h, hs) = (rw h, not_space w hs)

module _ (test : ℕ → Bool) where
  -- The walk stops behind a character that fails the test, and at the start.
  walk_ends :
      (p q : List ℕ)
      → (p ≡ []) ⊎ ((j : List ℕ) × (c : ℕ) × (p ≡ j ++ c ∷ []) × (test c ≡ false))
      → walk_left test (char_indices 0 (p ++ q)) (length p) ≡ some (length p)
  walk_ends p q (inl e) = rw e (unfold walk_left in refl)
  walk_ends p q (inr (j, c, e, h)) =
      let stop : length (j ++ c ∷ []) ≡ suc (length j) = omega (arith, length-append j (c ∷ [])) in
      rw (e, stop, append_assoc) (walk_stops test j c q h)

All-last : (P : ℕ → Type 0) (v : List ℕ) (c : ℕ) → All P (v ++ c ∷ []) → P c
All-last P [] c h = h.0
All-last P (d ∷ v) c h = All-last P v c h.1

length-char_indices : (at : ℕ) (s : List ℕ) → length (char_indices at s) ≡ length s
unfolding char_indices
length-char_indices at [] = refl
length-char_indices at (c ∷ s) = ap suc (length-char_indices (at + len_utf8 c) s)

-- The offset of the character behind `k`, or 0 if `k` is all there is and empty.
start_at :
    (k q : List ℕ)
    → (q ≡ [] → k ≡ [])
    → unwrap_or (Option.map (λ p. p.0) (get_elem? (char_indices 0 (k ++ q)) (length k))) 0
      ≡ byte_len k
start_at k [] h = rw (h refl) (unfold char_indices byte_len in refl)
start_at k (c ∷ q) h = rw char_at (omega arith)

module _ (k w s : List ℕ) (h : EndsInWord k w s) where
  word_ends :
      (v : List ℕ) (c : ℕ)
      → w ≡ v ++ c ∷ []
      → ((k ++ w) ≡ (k ++ v) ++ c ∷ []) × (is_whitespace c ≡ false)
  word_ends v c e = (
    rw e (sym (append_assoc k v (c ∷ []))),
    All-last _ v c (subst (All (λ c. is_whitespace c ≡ false)) e h.word),
  )

  word_end :
      ((k ++ w) ≡ [])
      ⊎ ((j : List ℕ) × (c : ℕ) × ((k ++ w) ≡ j ++ c ∷ []) × (is_whitespace c ≡ false))
  word_end = elim (List-ends w) [
    | inr (v, c, e) ↦ inr (k ++ v, c, (word_ends v c e).0, (word_ends v c e).1)
    | inl none_left ↦ elim h.nonempty [
      | inl k_nil ↦ inl (rw (k_nil, none_left))
      | inr (v, c, e) ↦ inr (k ++ v, c, (word_ends v c e).0, (word_ends v c e).1)
    ]
  ]

  space_end :
      (k ≡ []) ⊎ ((j : List ℕ) × (c : ℕ) × (k ≡ j ++ c ∷ []) × (not (is_whitespace c) ≡ false))
  space_end = elim h.before [ inl e ↦ inl e | inr (j, c, e, b) ↦ inr (j, c, e, rw b) ]

  space_walk :
      walk_left is_whitespace (char_indices 0 (k ++ (w ++ s))) (length (k ++ (w ++ s)))
      ≡ some (length (k ++ w))
  space_walk =
      simp (append_assoc, append-nil) at (walk_run is_whitespace (k ++ w) s [] h.space)
      ∙ simp append_assoc at (walk_ends is_whitespace (k ++ w) s word_end)

  word_walk :
      walk_left (λ c. not (is_whitespace c)) (char_indices 0 (k ++ (w ++ s))) (length (k ++ w))
      ≡ some (length k)
  word_walk =
      walk_run (λ c. not (is_whitespace c)) k w s (not_space w h.word)
      ∙ walk_ends (λ c. not (is_whitespace c)) k (w ++ s) space_end

  nothing_left : (w ++ s) ≡ [] → k ≡ []
  nothing_left e = elim h.nonempty [
    | inl k_nil ↦ k_nil
    | inr (v, c, w_eq) ↦
        let empty : length (w ++ s) ≡ 0 = ap length e in
        let full : length w ≡ length v + 1 = ap length w_eq ∙ length-append v (c ∷ []) in
        absurd (omega (arith, length-append w s))
  ]

  word_start_lem : word_start (k ++ (w ++ s)) ≡ some (byte_len k)
  unfolding word_start
  word_start_lem =
      rw (length-char_indices, space_walk, word_walk) (ap some (start_at k (w ++ s) nothing_left))

delete_word_back_here-placed :
    (e : InputEditor) (k w s r : List ℕ)
    → EndsInWord k w s
    → delete_word_back_here (placed e (k ++ (w ++ s)) r) ≡ some (placed e k r)
unfolding delete_word_back_here
delete_word_back_here-placed e k w s r h = elim (Bool-cases (byte_len (k ++ (w ++ s)) == 0)) [
  | inl at_start ↦
      let at : byte_len (k ++ (w ++ s)) ≡ 0 = (==_iff _ _).0 at_start in
      let k_nil : k ≡ [] = byte_len-eq_zero k (omega (arith, byte_len-append k (w ++ s))) in
      let rest_nil : (w ++ s) ≡ [] =
        byte_len-eq_zero (w ++ s) (omega (arith, byte_len-append k (w ++ s))) in
      rw at_start (rw (k_nil, rest_nil))
  | inr more ↦ rw (more, split_at-append, word_start_lem k w s h) (cut-placed e k (w ++ s) r)
]

-- Ctrl-W removes the white space before the cursor and the word before that, and nothing else.
pub delete_word_back-placed :
    (e : InputEditor) (k w s r : List ℕ)
    → EndsInWord k w s
    → delete_word_back (placed e (k ++ (w ++ s)) r) ≡ some (placed (edited e) k r)
unfolding delete_word_back
delete_word_back-placed e k w s r h =
    rw exit-placed (delete_word_back_here-placed (edited e) k w s r h)
