-- ===== src/Tokenizer/ByteUnicode.antt =====
-- src/tokenizer/byte_unicode.rs: GPT-2's map of the 256 bytes to characters. A character is its
-- code point; the two tables are lists and association lists.
pub mod RoundTrip
use project_willamette.Prelude.{
  ℕ, zero, suc, ◌+◌, ◌≤◌, ◌<◌, ◌≡◌, refl, arith, Bool, true, false, not, ◌&&◌, ◌||◌, Option, none,
  some, List, [], ◌∷◌, get_elem?, leb, ltb, ◌==◌, if◌then◌else◌,
}

pub record ByteUnicode : Type 0 where
  pub byte_to_char : List ℕ
  pub char_to_byte : List (ℕ × ℕ)

-- '!'..='~', 0xA1..=0xAC and 0xAE..=0xFF.
unfoldable pub printable : ℕ → Bool
printable b = leb 0x21 b && leb b 0x7E || (leb 0xA1 b && leb b 0xAC || leb 0xAE b && leb b 0xFF)

-- The table from byte `b` on, for `n` bytes; `next_code` is the next code for a byte that is not
-- printable.
unfoldable pub table_from : ℕ → ℕ → ℕ → List ℕ
table_from zero b next_code = []
table_from (suc n) b next_code =
    if printable b
    then b ∷ table_from n (b + 1) next_code
    else next_code ∷ table_from n (b + 1) (next_code + 1)

-- The insertions into `char_to_byte`, the newest first, from byte `b` on.
unfoldable pub inverse_of : List ℕ → ℕ → List (ℕ × ℕ) → List (ℕ × ℕ)
inverse_of [] b m = m
inverse_of (c ∷ cs) b m = inverse_of cs (b + 1) ((c, b) ∷ m)

unfoldable pub new : ByteUnicode
new =
    let table = table_from 256 0 256 in
    record { byte_to_char = table; char_to_byte = inverse_of table 0 [] }

unfoldable pub lookup : ℕ → List (ℕ × ℕ) → Option ℕ
lookup c [] = none
lookup c ((k, b) ∷ m) = if k == c then some b else lookup c m

-- `none` is a panic, which no byte comes to.
unfoldable pub encode_byte : ByteUnicode → ℕ → Option ℕ
encode_byte table b = get_elem? table.byte_to_char b

unfoldable pub decode_char : ByteUnicode → ℕ → Option ℕ
decode_char table c = lookup c table.char_to_byte
