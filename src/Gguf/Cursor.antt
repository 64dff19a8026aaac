-- ===== src/Gguf/Cursor.antt =====
-- The reads of src/gguf/reader.rs through `Cursor` and `byteorder`: little-endian words.
use Prim.Native.Nat.{bit_and}
use project_willamette.Prelude.{
  ℕ, zero, suc, ◌+◌, ◌-◌, ◌*◌, Bool, true, false, ◌&&◌, List, [], ◌∷◌, length, take, drop, leb, ltb,
  ◌==◌, if◌then◌else◌,
}
use project_willamette.Gguf.Result.{Result, ok, err, gguf_parse, Problem, short_read}

-- `rest` is what lies behind `position`.
pub record Cursor : Type 0 where
  pub rest : List ℕ
  pub position : ℕ

abbrev pub Reader {ℓ} : Type ℓ → Type ℓ
Reader A = Cursor → Result (A × Cursor)

infixl 5 ◌>>=◌ ◌>>◌
abbrev pub ◌>>=◌ {ℓ κ} : {A : Type ℓ} {B : Type κ} → Reader A → (A → Reader B) → Reader B
◌>>=◌ m f c = elim (m c) [ ok (a, c') ↦ f a c' | err e ↦ err e ]

abbrev pub ◌>>◌ {ℓ κ} : {A : Type ℓ} {B : Type κ} → Reader A → Reader B → Reader B
m >> k = m >>= λ _. k

abbrev pub pure {ℓ} : {A : Type ℓ} → A → Reader A
pure a c = ok (a, c)

abbrev pub fail {ℓ} : {A : Type ℓ} → Problem → Reader A
fail p c = err (gguf_parse p)

abbrev pub lift {ℓ} : {A : Type ℓ} → Result A → Reader A
lift (ok a) c = ok (a, c)
lift (err e) c = err e

-- `data.len().saturating_sub(cur.position())`, and `cur.position()`.
abbrev pub remaining : Reader ℕ
remaining c = ok (length c.rest, c)

abbrev pub position : Reader ℕ
position c = ok (c.position, c)

-- `read_exact` of `n` bytes.
unfoldable pub read_bytes : ℕ → Reader (List ℕ)
read_bytes n c =
    if leb n (length c.rest)
    then ok (take n c.rest, record { rest = drop n c.rest; position = c.position + n })
    else err (gguf_parse short_read)

unfoldable pub from_le : List ℕ → ℕ
from_le [] = 0
from_le (b ∷ bs) = b + 256 * from_le bs

unfoldable pub read_word : ℕ → Reader ℕ
read_word n = do bytes ← read_bytes n; pure (from_le bytes)

abbrev pub read_u8 : Reader ℕ
read_u8 = read_word 1

abbrev pub read_u16 : Reader ℕ
read_u16 = read_word 2

abbrev pub read_u32 : Reader ℕ
read_u32 = read_word 4

abbrev pub read_u64 : Reader ℕ
read_u64 = read_word 8

-- `String::from_utf8`: the well-formed sequences of the Unicode standard, table 3-7.
is_tail : ℕ → Bool
is_tail b = leb 0x80 b && leb b 0xbf

second_ok : ℕ → ℕ → Bool
second_ok a b =
    if a == 0xe0
    then leb 0xa0 b && leb b 0xbf
    else if a == 0xed
    then leb 0x80 b && leb b 0x9f
    else if a == 0xf0
    then leb 0x90 b && leb b 0xbf
    else if a == 0xf4
    then leb 0x80 b && leb b 0x8f
    else is_tail b

-- The bytes still due in the current character, and the test that the next one must pass.
unfoldable pub is_utf8_from : ℕ → (ℕ → Bool) → List ℕ → Bool
unfolding is_tail second_ok
is_utf8_from zero test [] = true
is_utf8_from (suc n) test [] = false
is_utf8_from zero test (b ∷ bs) =
    let ascii = is_utf8_from 0 is_tail bs in
    let two = is_utf8_from 1 is_tail bs in
    let three = is_utf8_from 2 (second_ok b) bs in
    let four = is_utf8_from 3 (second_ok b) bs in
    if ltb b 0x80
    then ascii
    else if leb 0xc2 b && leb b 0xdf
    then two
    else if leb 0xe0 b && leb b 0xef
    then three
    else if leb 0xf0 b && leb b 0xf4
    then four
    else false
is_utf8_from (suc n) test (b ∷ bs) =
    let more = is_utf8_from n is_tail bs in if test b then more else false

unfoldable pub is_utf8 : List ℕ → Bool
unfolding is_tail
is_utf8 s = is_utf8_from 0 is_tail s

-- `u64::is_power_of_two`.
unfoldable pub is_power_of_two : ℕ → Bool
is_power_of_two n = ltb 0 n && bit_and n (n - 1) == 0
