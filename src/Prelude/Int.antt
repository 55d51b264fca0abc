-- ===== src/Prelude/Int.antt =====
-- C's signed integers as integers over the native numbers.
use Prim.Native.Nat.{ℕ, ◌-◌, ◌^◌}
use mathlib.Core.Bool.{Bool, true, false}
use leo_one.Prelude.Tests.{ltb, leb, if◌then◌else◌}

-- `negsuc n` is -(n + 1).
pub data ℤ : Type 0 where
  pos : ℕ → ℤ
  negsuc : ℕ → ℤ

-- -n
abbrev pub neg : ℕ → ℤ
neg n = if leb n 0 then pos 0 else negsuc (n - 1)

-- z ≤ 0
abbrev pub nonpositive : ℤ → Bool
nonpositive (pos n) = leb n 0
nonpositive (negsuc n) = true

-- n < z, for a bound n that is not negative
abbrev pub exceeds : ℤ → ℕ → Bool
exceeds (pos z) n = ltb n z
exceeds (negsuc z) n = false

-- the bit pattern of a 32-bit two's complement number, as the number
abbrev pub of_bits32 : ℕ → ℤ
of_bits32 b = if ltb b (2 ^ 31) then pos b else negsuc (2 ^ 32 - 1 - b)
