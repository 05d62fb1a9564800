-- ===== src/Common/Words.antt =====
-- Go's 64-bit int as its bit pattern, a number below 2^64 in two's complement.
use Prim.Native.Nat.{ℕ, ◌+◌, ◌-◌, ◌*◌, ◌%◌, ◌^◌, ◌<◌, ◌≤◌, min, max}
use mathlib.Core.Path.{◌≡◌}
use mathlib.Core.Bool.{Bool, false}
use native.Mathlib.Omega.{arith}
use telemetry_search_engine.Common.Tests.{ltb, leb, if◌then◌else◌}

unfoldable pub add64 : ℕ → ℕ → ℕ
add64 a b = (a + b) % 2 ^ 64

unfoldable pub sub64 : ℕ → ℕ → ℕ
sub64 a b = (a + 2 ^ 64 - b) % 2 ^ 64

unfoldable pub mul64 : ℕ → ℕ → ℕ
mul64 a b = a * b % 2 ^ 64

unfoldable pub is_negative : ℕ → Bool
is_negative a = leb (2 ^ 63) a

-- The signed comparison a < b.
unfoldable pub less64 : ℕ → ℕ → Bool
less64 a b = ltb ((a + 2 ^ 63) % 2 ^ 64) ((b + 2 ^ 63) % 2 ^ 64)

unfoldable pub min64 : ℕ → ℕ → ℕ
min64 a b = if less64 b a then b else a

unfoldable pub max64 : ℕ → ℕ → ℕ
max64 a b = if less64 a b then b else a

-- On numbers that are not negative, and whose result is none, these are the operations on ℕ.
pub sub64-eq : (a b : ℕ) → b ≤ a → a < 2 ^ 64 → sub64 a b ≡ a - b
unfolding sub64
sub64-eq a b p q = omega arith

pub add64-eq : (a b : ℕ) → a + b < 2 ^ 64 → add64 a b ≡ a + b
unfolding add64
add64-eq a b p = omega arith

pub mul64-eq : (a b : ℕ) → a * b < 2 ^ 64 → mul64 a b ≡ a * b
unfolding mul64
mul64-eq a b p = omega arith

pub is_negative-eq : (a : ℕ) → a < 2 ^ 63 → is_negative a ≡ false
unfolding is_negative
is_negative-eq a p = ground arith

pub less64-eq : (a b : ℕ) → a < 2 ^ 63 → b < 2 ^ 63 → less64 a b ≡ ltb a b
unfolding less64
less64-eq a b p q = ground arith

pub min64-eq : (a b : ℕ) → a < 2 ^ 63 → b < 2 ^ 63 → min64 a b ≡ min a b
unfolding min64
min64-eq a b p q = ground (arith, less64-eq b a)

pub max64-eq : (a b : ℕ) → a < 2 ^ 63 → b < 2 ^ 63 → max64 a b ≡ max a b
unfolding max64
max64-eq a b p q = ground (arith, less64-eq a b)

-- A negative number is the smaller one.
pub min64_negative : (a b : ℕ) → 2 ^ 63 ≤ a → a < 2 ^ 64 → b < 2 ^ 63 → min64 a b ≡ a
unfolding min64 less64
min64_negative a b p q r = ground arith
