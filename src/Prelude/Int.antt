-- ===== src/Prelude/Int.antt =====
-- C's `int` as an integer, and the bounds of the 32-bit type.
use Prim.Native.Nat.{ℕ, zero, suc, ◌+◌, ◌-◌, ◌^◌}
use freertos_addons.Prelude.Tests.{ltb, leb, if◌then◌else◌}

-- `negsuc n` is -(n + 1).
pub data ℤ : Type 0 where
  pos : ℕ → ℤ
  negsuc : ℕ → ℤ

-- INT_MAX
abbrev pub int_max : ℕ
int_max = 2 ^ 31 - 1

-- -n
abbrev pub neg : ℕ → ℤ
neg zero = pos 0
neg (suc n) = negsuc n

-- A sum with a number that is not negative.
abbrev pub add_ℕ : ℕ → ℤ → ℤ
add_ℕ k (pos n) = pos (k + n)
add_ℕ k (negsuc n) = if ltb n k then pos (k - (n + 1)) else negsuc (n - k)

-- The conversion of a sum below 2^32 to `int`.
abbrev pub narrow : ℤ → ℤ
narrow (pos n) = if leb n int_max then pos n else negsuc (2 ^ 32 - (n + 1))
narrow (negsuc n) = negsuc n

-- How many rounds `for (i = 0; i < n; i++)` makes.
abbrev pub rounds_of : ℤ → ℕ
rounds_of (pos n) = n
rounds_of (negsuc n) = 0
