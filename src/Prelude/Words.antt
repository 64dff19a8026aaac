-- ===== src/Prelude/Words.antt =====
-- u64 arithmetic as Rust's checked operations do it; `usize` is u64 on the hosts modelled.
use Prim.Native.Nat.{ℕ, ◌+◌, ◌-◌, ◌*◌, ◌^◌, ◌<◌}
use mathlib.Core.Path.{◌≡◌}
use mathlib.Core.Option.{Option, none, some}
use native.Mathlib.Omega.{arith}
use project_willamette.Prelude.Tests.{ltb, leb, if◌then◌else◌}

abbrev pub u64_mod : ℕ
u64_mod = 2 ^ 64

-- `a.checked_add(b)`, `a.checked_mul(b)` and `a.checked_sub(b)`.
unfoldable pub checked_add : ℕ → ℕ → Option ℕ
checked_add a b = if ltb (a + b) u64_mod then some (a + b) else none

unfoldable pub checked_mul : ℕ → ℕ → Option ℕ
checked_mul a b = if ltb (a * b) u64_mod then some (a * b) else none

unfoldable pub checked_sub : ℕ → ℕ → Option ℕ
checked_sub a b = if leb b a then some (a - b) else none

pub checked_add-some : (a b c : ℕ) → checked_add a b ≡ some c → (c ≡ a + b) × (c < u64_mod)
unfolding checked_add
checked_add-some a b c h = ground arith

pub checked_mul-some : (a b c : ℕ) → checked_mul a b ≡ some c → (c ≡ a * b) × (c < u64_mod)
unfolding checked_mul
checked_mul-some a b c h = ground arith

pub checked_sub-some : (a b c : ℕ) → checked_sub a b ≡ some c → (c + b ≡ a)
unfolding checked_sub
checked_sub-some a b c h = ground arith
