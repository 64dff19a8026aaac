-- ===== src/Tokenizer/Vocabulary.antt =====
-- What the tokenizers of src/tokenizer/mod.rs share: texts and their bytes, and the two maps between
-- tokens and ids. A text is the list of its characters.
use project_willamette.Prelude.{
  ℕ, zero, suc, ◌+◌, ◌/◌, ◌%◌, ◌^◌, ◌≤◌, ◌<◌, ◌≡◌, refl, ap, ◌∙◌, sym, arith, Option, none, some,
  List, [], ◌∷◌, ◌++◌, length, get_elem?, All, All-append, ltb, if◌then◌else◌, Bool-cases,
  Option-cases, inl, inr,
}
use native.Mathlib.Nat.{mod-eq_of_lt}
use mathlib.Core.List.{append_assoc}
use project_willamette.Editor.Text.{text_eq}
use project_willamette.Editor.Search.{text_eq_iff}
use project_willamette.Tokenizer.Pretokenize.Qwen2.{Text}

-- The bytes of a character in UTF-8.
unfoldable pub utf8_char : ℕ → List ℕ
utf8_char c =
    if ltb c 0x80
    then c ∷ []
    else if ltb c 0x800
    then (0xC0 + c / 64) ∷ (0x80 + c % 64) ∷ []
    else if ltb c 0x1_0000
    then (0xE0 + c / 4096) ∷ (0x80 + c / 64 % 64) ∷ (0x80 + c % 64) ∷ []
    else (0xF0 + c / 262144) ∷ (0x80 + c / 4096 % 64) ∷ (0x80 + c / 64 % 64) ∷ (0x80 + c % 64) ∷ []

-- `str::as_bytes`.
unfoldable pub as_bytes : Text → List ℕ
as_bytes [] = []
as_bytes (c ∷ s) = utf8_char c ++ as_bytes s

-- A `char` is a code point below this.
abbrev pub char_end : ℕ
char_end = 0x11_0000

utf8_char-bytes : (c : ℕ) → c < char_end → All (λ b. b < 256) (utf8_char c)
unfolding utf8_char
utf8_char-bytes c h = ground arith

pub as_bytes-bytes : (s : Text) → All (λ c. c < char_end) s → All (λ b. b < 256) (as_bytes s)
unfolding as_bytes
as_bytes-bytes [] h = tt
as_bytes-bytes (c ∷ s) h =
    All-append (λ b. b < 256) (utf8_char c) (as_bytes s) (utf8_char-bytes c h.0)
      (as_bytes-bytes s h.1)

pub as_bytes-append : (s t : Text) → as_bytes (s ++ t) ≡ as_bytes s ++ as_bytes t
unfolding as_bytes
as_bytes-append [] t = refl
as_bytes-append (c ∷ s) t =
    ap (λ r. utf8_char c ++ r) (as_bytes-append s t)
    ∙ sym (append_assoc (utf8_char c) (as_bytes s) (as_bytes t))

abbrev pub u32_mod : ℕ
u32_mod = 2 ^ 32

-- What `token_to_id.get` gives once the tokens from index `i` on are inserted: the latest id wins.
unfoldable pub id_from : ℕ → List Text → Text → Option ℕ
id_from i [] t = none
id_from i (x ∷ xs) t =
    let later = id_from (i + 1) xs t in
    elim later [ some id ↦ some id | none ↦ if text_eq x t then some (i % u32_mod) else none ]

unfoldable pub token_id : List Text → Text → Option ℕ
token_id tokens t = id_from 0 tokens t

id_from-get :
    (i : ℕ) (tokens : List Text) (t : Text) (id : ℕ)
    → i + length tokens ≤ u32_mod
    → id_from i tokens t ≡ some id
    → (k : ℕ) × (id ≡ i + k) × (get_elem? tokens k ≡ some t)
unfolding id_from
id_from-get i [] t id h e = cc
id_from-get i (x ∷ xs) t id h e = elim (Option-cases (id_from (i + 1) xs t)) [
  | inr (later, found) ↦
      let (k, k_eq, at) = id_from-get (i + 1) xs t later (omega arith) found in
      (suc k, omega (arith, some-injective (rw found at e), k_eq), at)
  | inl fresh ↦ here (rw fresh at e)
]
  where
    some-injective : {a b : ℕ} → some a ≡ some b → a ≡ b
    some-injective p = cc

    here :
        (if text_eq x t then some (i % u32_mod) else none) ≡ some id
        → (k : ℕ) × (id ≡ i + k) × (get_elem? (x ∷ xs) k ≡ some t)
    here p = elim (Bool-cases (text_eq x t)) [
      | inl same ↦ (
        0,
        omega (
          arith,
          mod-eq_of_lt {n = i} {m = u32_mod} (omega arith),
          some-injective (rw same at p),
        ),
        ap some ((text_eq_iff x t).0 same),
      )
      | inr other ↦ cc (rw other at p)
    ]

-- The id that is found for a token is an index of that token.
pub token_id-get :
    (tokens : List Text) (t : Text) (id : ℕ)
    → length tokens ≤ u32_mod
    → token_id tokens t ≡ some id
    → get_elem? tokens id ≡ some t
unfolding token_id
token_id-get tokens t id h e =
    let (k, k_eq, at) = id_from-get 0 tokens t id (omega arith) e in
    ap (get_elem? tokens) {x = id} {y = k} (omega (arith, k_eq)) ∙ at

-- A token of the vocabulary has an id.
pub id_from-known :
    (i k : ℕ) (tokens : List Text) (t : Text)
    → get_elem? tokens k ≡ some t
    → (id : ℕ) × (id_from i tokens t ≡ some id)
unfolding id_from
id_from-known i k [] t h = cc
id_from-known i zero (x ∷ xs) t h = elim (Option-cases (id_from (i + 1) xs t)) [
  | inr (id, found) ↦ rw found (id, refl)
  | inl fresh ↦ rw (fresh, (text_eq_iff x t).1 (some_injective h)) (i % u32_mod, refl)
]
  where
    some_injective : {a b : Text} → some a ≡ some b → a ≡ b
    some_injective p = cc
id_from-known i (suc k) (x ∷ xs) t h =
    let (id, found) = id_from-known (i + 1) k xs t h in rw found (id, refl)
