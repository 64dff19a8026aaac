-- ===== src/Editor/Text.antt =====
-- What the editor uses of Rust's `char`, `str` and `String`. A string is its list of code points,
-- and offsets count bytes of its UTF-8 form. `none` is the panic of a slice off a char boundary.
use project_willamette.Prelude.{
  ℕ, zero, suc, ◌+◌, ◌-◌, Bool, true, false, ◌&&◌, ◌||◌, Option, none, some, List, [], ◌∷◌, ltb,
  leb, ◌==◌, if◌then◌else◌,
}
use mathlib.Core.Option

-- `char::len_utf8`.
unfoldable pub len_utf8 : ℕ → ℕ
len_utf8 c = if ltb c 0x80 then 1 else if ltb c 0x800 then 2 else if ltb c 0x1_0000 then 3 else 4

-- `char::is_whitespace`: the property White_Space of Unicode.
unfoldable pub is_whitespace : ℕ → Bool
is_whitespace c =
    (leb 9 c && leb c 13)
    || c == 0x20
    || c == 0x85
    || c == 0xa0
    || c == 0x1680
    || (leb 0x2000 c && leb c 0x200a)
    || c == 0x2028
    || c == 0x2029
    || c == 0x202f
    || c == 0x205f
    || c == 0x3000

-- `str::len`.
unfoldable pub byte_len : List ℕ → ℕ
byte_len [] = 0
byte_len (c ∷ s) = len_utf8 c + byte_len s

abbrev pub cons_left : ℕ → List ℕ × List ℕ → List ℕ × List ℕ
cons_left c (l, r) = (c ∷ l, r)

-- `(&s[..at], &s[at..])`, which panics unless `at` is a char boundary.
unfoldable pub split_at : ℕ → List ℕ → Option (List ℕ × List ℕ)
split_at zero s = some ([], s)
split_at (suc n) [] = none
split_at (suc n) (c ∷ s) =
    let rest = Option.map (cons_left c) (split_at (suc n - len_utf8 c) s) in
    if leb (len_utf8 c) (suc n) then rest else none

-- `str::char_indices`, counted from `at`.
unfoldable pub char_indices : ℕ → List ℕ → List (ℕ × ℕ)
char_indices at [] = []
char_indices at (c ∷ s) = (at, c) ∷ char_indices (at + len_utf8 c) s

-- `==` on strings.
unfoldable pub text_eq : List ℕ → List ℕ → Bool
text_eq [] [] = true
text_eq (a ∷ s) (b ∷ t) = a == b && text_eq s t
text_eq _ _ = false

unfoldable pub starts_with : List ℕ → List ℕ → Bool
starts_with [] s = true
starts_with (a ∷ t) [] = false
starts_with (a ∷ t) (b ∷ s) = a == b && starts_with t s

-- `str::contains`. UTF-8 synchronises itself, so a match of bytes is a match of code points.
unfoldable pub contains : List ℕ → List ℕ → Bool
contains needle [] = starts_with needle []
contains needle (c ∷ s) = starts_with needle (c ∷ s) || contains needle s
