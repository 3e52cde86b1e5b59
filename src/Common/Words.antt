-- ===== src/Common/Words.antt =====
-- Machine words: arithmetic that wraps at the type's width, and the saturating kind.
use Prim.Native.Nat.{ℕ, ◌+◌, ◌%◌, ◌^◌, ◌<◌, min}
use mathlib.Core.Path.{◌≡◌}
use native.Mathlib.Omega.{arith}

-- A `u64` result, in a build without overflow checks.
abbrev pub u64 : ℕ → ℕ
u64 n = n % 2 ^ 64

abbrev pub u8_max : ℕ
u8_max = 255

-- `u8::saturating_add`.
abbrev pub saturating_add_u8 : ℕ → ℕ → ℕ
saturating_add_u8 a b = min (a + b) u8_max

pub u64-eq_of_lt : (n : ℕ) → n < 2 ^ 64 → u64 n ≡ n
u64-eq_of_lt n h = omega arith

pub u64-add_u64 : (a b : ℕ) → u64 (u64 a + b) ≡ u64 (a + b)
u64-add_u64 a b = omega arith
