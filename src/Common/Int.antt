-- ===== src/Common/Int.antt =====
-- The `int` of the configuration, and the few things the program does with one.
use Prim.Native.Nat.{ℕ, ◌-◌, ◌^◌, ◌%◌, ◌/◌, max}
use mathlib.Core.Bool.{Bool, true, false, ◌&&◌}
use mathlib.Core.Path.{◌≡◌}
use native.Mathlib.Omega.{arith}
use shimakaze.Common.Tests.{◌==◌, ltb, if◌then◌else◌}

-- `negsuc n` is -(n + 1).
pub data ℤ : Type 0 where
  pos : ℕ → ℤ
  negsuc : ℕ → ℤ

-- `max(0, x)` and `max(1, x)`.
abbrev pub at_least_zero : ℤ → ℕ
at_least_zero (pos n) = n
at_least_zero (negsuc n) = 0

abbrev pub at_least_one : ℤ → ℕ
at_least_one x = max 1 (at_least_zero x)

-- `max(1, x / 2)`.
abbrev pub at_least_one_half : ℤ → ℕ
at_least_one_half x = max 1 (at_least_zero x / 2)

-- `static_cast<unsigned char>(x)`.
abbrev pub low_byte : ℤ → ℕ
low_byte (pos n) = n % 256
low_byte (negsuc n) = 255 - n % 256

-- `x == n`, `x < n` and `x > n` for a literal `n`.
abbrev pub is : ℤ → ℕ → Bool
is (pos m) n = m == n
is (negsuc m) n = false

abbrev pub below : ℤ → ℕ → Bool
below (pos m) n = ltb m n
below (negsuc m) n = true

abbrev pub above : ℤ → ℕ → Bool
above (pos m) n = ltb n m
above (negsuc m) n = false

-- The sum of two `int`s that are not negative, which is below 2 ^ 32. Where it passes `int` it wraps, as it does
-- on the usual machines: the source's is undefined there.
unfoldable pub wrap_int : ℕ → ℤ
wrap_int sum = if ltb sum (2 ^ 31) then pos sum else negsuc (2 ^ 32 - 1 - sum)

pub above-wrap_int : (sum n : ℕ) → above (wrap_int sum) n ≡ (ltb sum (2 ^ 31) && ltb n sum)
unfolding wrap_int
above-wrap_int sum n = ground arith
