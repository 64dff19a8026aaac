-- ===== src/Tokenizer/Pretokenize/Qwen2.antt =====
-- `qwen2_pretokenize` of src/tokenizer/pretokenize.rs. The state of its loop, the position, is the
-- list of the characters from there on; a round says how many of them make the next chunk.
use project_willamette.Prelude.{
  ℕ, zero, suc, ◌+◌, ◌-◌, Bool, false, not, ◌&&◌, ◌||◌, Option, none, some, List, [], ◌∷◌, map,
  length, take, drop, get_elem?, ltb, leb, ◌==◌, if◌then◌else◌, ◌>>=◌,
}

abbrev pub Text : Type 0
Text = List ℕ

-- What `\p{L}`, `\p{N}` and `\s` say of one character.
pub record Classes : Type 0 where
  pub is_letter : ℕ → Bool
  pub is_number : ℕ → Bool
  pub is_whitespace : ℕ → Bool

-- The fields `start` and `end` are the character's place in the list.
pub record Qwen2Char : Type 0 where
  pub value : ℕ
  pub letter : Bool
  pub number : Bool
  pub whitespace : Bool

unfoldable pub classify : Classes → Text → List Qwen2Char
classify classes [] = []
classify classes (c ∷ s) =
    record {
      value = c;
      letter = classes.is_letter c;
      number = classes.is_number c;
      whitespace = classes.is_whitespace c;
    }
    ∷ classify classes s

-- `chars.get(i).is_some_and(test)`.
abbrev pub holds_at : (Qwen2Char → Bool) → ℕ → List Qwen2Char → Bool
holds_at test i chars = elim (get_elem? chars i) [ none ↦ false | some c ↦ test c ]

-- `while chars.get(pos).is_some_and(test) { pos += 1; }`: the rounds from the front on.
unfoldable pub count_while : (Qwen2Char → Bool) → List Qwen2Char → ℕ
count_while test [] = 0
count_while test (c ∷ cs) = let n = count_while test cs in if test c then suc n else 0

-- `char::to_ascii_lowercase`.
abbrev pub ascii_lower : ℕ → ℕ
ascii_lower c = if leb b'A' c && leb c b'Z' then c + 32 else c

-- `lower(index)`, and 0 past the end.
abbrev pub lower : ℕ → List Qwen2Char → ℕ
lower i chars = elim (get_elem? chars i) [ none ↦ 0 | some c ↦ ascii_lower c.value ]

unfoldable pub qwen2_contraction_len : List Qwen2Char → ℕ
qwen2_contraction_len chars =
    let a = lower 1 chars in
    let b = lower 2 chars in
    if a == b's' || a == b't' || a == b'm' || a == b'd'
    then 2
    else if (a == b'r' && b == b'e') || (a == b'v' && b == b'e') || (a == b'l' && b == b'l')
    then 3
    else 0

abbrev pub is_newline : Qwen2Char → Bool
is_newline c = c.value == 13 || c.value == 10

abbrev pub is_letter : Qwen2Char → Bool
is_letter c = c.letter

abbrev pub is_whitespace : Qwen2Char → Bool
is_whitespace c = c.whitespace

abbrev pub is_symbol : Qwen2Char → Bool
is_symbol c = not c.whitespace && not c.letter && not c.number

-- The last newline of the white space at the front: `last_newline_end`, counted from the front.
unfoldable pub last_newline_end : ℕ → List Qwen2Char → Option ℕ
last_newline_end pos [] = none
last_newline_end pos (c ∷ cs) =
    let later = last_newline_end (pos + 1) cs in
    if c.whitespace
    then (elim later [ some end ↦ some end | none ↦ if is_newline c then some (pos + 1) else none ])
    else none

-- The last branch: white space, or a character that no branch takes.
unfoldable pub whitespace_len : List Qwen2Char → ℕ
whitespace_len chars =
    let run = count_while is_whitespace chars in
    elim (last_newline_end 0 chars) [
      | some end ↦ end
      | none ↦ if ltb 1 run && ltb run (length chars) then run - 1 else if run == 0 then 1 else run
    ]

-- The branch for symbols, `at` being the place of the first: they and the newlines behind them.
unfoldable pub symbols_end : ℕ → List Qwen2Char → ℕ
symbols_end at chars =
    let past = at + 1 + count_while is_symbol (drop (at + 1) chars) in
    past + count_while is_newline (drop past chars)

abbrev pub symbol_pos : Qwen2Char → ℕ
symbol_pos c = if c.value == 32 then 1 else 0

-- How many characters the next chunk takes, from the front `c`.
unfoldable pub chunk_len : Qwen2Char → List Qwen2Char → ℕ
chunk_len c cs =
    if c.value == 39 && ltb 0 (qwen2_contraction_len (c ∷ cs))
    then qwen2_contraction_len (c ∷ cs)
    else if not (is_newline c) && not c.number && (c.letter || holds_at is_letter 0 cs)
    then 1 + count_while is_letter cs
    else if c.number
    then 1
    else if holds_at is_symbol (symbol_pos c) (c ∷ cs)
    then symbols_end (symbol_pos c) (c ∷ cs)
    else whitespace_len (c ∷ cs)

abbrev pub values : List Qwen2Char → Text
values chars = map (λ c. c.value) chars

-- The loop. A chunk takes a character at least, so that as much fuel as characters is enough.
unfoldable pub qwen2_loop : ℕ → List Qwen2Char → Option (List Text)
qwen2_loop fuel [] = some []
qwen2_loop zero (c ∷ cs) = none
qwen2_loop (suc fuel) (c ∷ cs) =
    let n = chunk_len c cs in
    (do
      chunks ← qwen2_loop fuel (drop n (c ∷ cs))
      if leb n (length (c ∷ cs)) then some (values (take n (c ∷ cs)) ∷ chunks) else none)

unfoldable pub qwen2_pretokenize : Classes → Text → Option (List Text)
qwen2_pretokenize classes text =
    let chars = classify classes text in qwen2_loop (length chars) chars
