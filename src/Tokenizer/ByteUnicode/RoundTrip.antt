-- ===== src/Tokenizer/ByteUnicode/RoundTrip.antt =====
-- That the tables of src/tokenizer/byte_unicode.rs are inverse to each other.
use project_willamette.Prelude.{
  ℕ, zero, suc, ◌<◌, ◌≡◌, refl, ap, arith, Bool, true, false, ◌&&◌, Option, none, some, ◌==◌,
  Bool-cases, inl, inr,
}
use project_willamette.Tokenizer.ByteUnicode.{
  new, encode_byte, decode_char, printable, table_from, inverse_of, lookup,
}

-- Whether byte `b` comes back.
comes_back : ℕ → Bool
comes_back b = elim (encode_byte new b) [
  | none ↦ false
  | some c ↦ elim (decode_char new c) [ none ↦ false | some d ↦ d == b ]
]

all_below : (ℕ → Bool) → ℕ → Bool
all_below p zero = true
all_below p (suc n) = let rest = all_below p n in p n && rest

all_come_back : all_below comes_back 256 ≡ true
unfolding all_below comes_back encode_byte decode_char new table_from inverse_of lookup printable
all_come_back = refl

all_below-true : (p : ℕ → Bool) (n b : ℕ) → all_below p n ≡ true → b < n → p b ≡ true
unfolding all_below
all_below-true p zero b h lt = elim lt [ ]
all_below-true p (suc n) b h lt = elim (Bool-cases (b == n)) [
  | inl here ↦ ground arith
  | inr below ↦ all_below-true p n b (ground arith) (ground arith)
]

decoded :
    (e : Option ℕ) (b : ℕ)
    → (elim e as (λ _. Bool) [ none ↦ false | some d ↦ d == b ]) ≡ true
    → e ≡ some b
decoded none b h = cc
decoded (some d) b h = ap some {x = d} {y = b} (ground arith)

came_back :
    (e : Option ℕ) (b : ℕ)
    → (elim e as (λ _. Bool) [
      | none ↦ false
      | some c ↦ elim (decode_char new c) as (λ _. Bool) [ none ↦ false | some d ↦ d == b ]
    ])
      ≡ true
    → (c : ℕ) × (e ≡ some c) × (decode_char new c ≡ some b)
came_back none b h = cc
came_back (some c) b h = (c, refl, decoded (decode_char new c) b h)

-- Every number below 256 has a character, which decodes to that byte.
pub decode_char-encode_byte :
    (b : ℕ) → b < 256 → (c : ℕ) × (encode_byte new b ≡ some c) × (decode_char new c ≡ some b)
unfolding comes_back
decode_char-encode_byte b lt =
    came_back (encode_byte new b) b (all_below-true comes_back 256 b all_come_back lt)
