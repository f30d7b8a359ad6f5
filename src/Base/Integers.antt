-- ===== src/Base/Integers.antt =====
-- The signed integers, on the native numbers.
use Prim.Native.Nat.{ℕ}
use mathlib.Core.Bool.{Bool, true, false}
use ngim.Base.Tests.{ltb}

-- `negsuc n` is `-n - 1`.
pub data ℤ : Type 0 where
  pos : ℕ → ℤ
  negsuc : ℕ → ℤ

abbrev pub is_negative : ℤ → Bool
is_negative (pos n) = false
is_negative (negsuc n) = true

-- `n < z`, for a number that is not negative.
abbrev pub above : ℕ → ℤ → Bool
above n (pos m) = ltb n m
above n (negsuc m) = false

-- `z < n`, for a number that is not negative.
abbrev pub below : ℕ → ℤ → Bool
below n (pos m) = ltb m n
below n (negsuc m) = true

-- A cast to a type that holds `z`, of a number that is not negative.
abbrev pub magnitude : ℤ → ℕ
magnitude (pos n) = n
magnitude (negsuc n) = 0
