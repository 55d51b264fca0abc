-- ===== src/Prelude/Double.antt =====
-- IEEE doubles by their values, for the comparisons and the casts that the program makes.
use Prim.Native.Nat.{ℕ, zero, suc, ◌+◌, ◌*◌, ◌/◌, ◌%◌, ◌^◌}
use mathlib.Core.Bool.{Bool, true, false, not, ◌&&◌, ◌||◌}
use mathlib.Core.Option.{Option, none, some}
use leo_one.Prelude.Tests.{ltb, leb, ◌==◌, if◌then◌else◌}
use leo_one.Prelude.Int.{ℤ, pos, negsuc, neg}

-- `finite negative m k` is m / 2^k with its sign: every finite double has this form.
pub data Double : Type 0 where
  nan : Double
  infinite : Bool → Double
  finite : Bool → ℕ → ℕ → Double

-- `v != v`
abbrev pub is_nan : Double → Bool
is_nan nan = true
is_nan (infinite s) = false
is_nan (finite s m k) = false

-- `v < (double)n`, for an n that is not negative and below 2^53
abbrev pub lt_nat : Double → ℕ → Bool
lt_nat nan n = false
lt_nat (infinite s) n = s
lt_nat (finite true m k) n = ltb 0 n || ltb 0 m
lt_nat (finite false m k) n = ltb m (n * 2 ^ k)

-- `v > (double)n`
abbrev pub gt_nat : Double → ℕ → Bool
gt_nat nan n = false
gt_nat (infinite s) n = not s
gt_nat (finite true m k) n = false
gt_nat (finite false m k) n = ltb (n * 2 ^ k) m

-- The value with its fraction dropped, as a C cast computes it where the result fits its type.
abbrev pub trunc : Double → ℕ
trunc nan = 0
trunc (infinite s) = 0
trunc (finite s m k) = m / 2 ^ k

-- `(double)n` for an unsigned n below 2^64: to the nearest, ties to even.
round_at : ℕ → ℕ → ℕ
round_at e n =
    let q = n / 2 ^ e in
    let r = n % 2 ^ e in
    if ltb (2 ^ e) (2 * r) || ((2 * r == 2 ^ e) && (q % 2 == 1)) then (q + 1) * 2 ^ e else q * 2 ^ e

-- the exponent at which n has 53 bits, at most the number of rounds
excess : ℕ → ℕ → ℕ
excess zero n = 0
excess (suc rounds) n = if ltb n (2 ^ 53) then 0 else suc (excess rounds (n / 2))

unfoldable pub of_nat : ℕ → Double
unfolding round_at excess
of_nat n = if ltb n (2 ^ 53) then finite false n 0 else finite false (round_at (excess 11 n) n) 0

-- `(double)z` of an `int`, which is exact.
abbrev pub of_int : ℤ → Double
of_int (pos n) = finite false n 0
of_int (negsuc n) = finite true (n + 1) 0

-- `(int)v` where the value with its fraction dropped is an `int`; C leaves the other casts undefined.
abbrev pub to_int? : Double → Option ℤ
to_int? nan = none
to_int? (infinite s) = none
to_int? (finite true m k) = if ltb (2 ^ 31) (m / 2 ^ k) then none else some (neg (m / 2 ^ k))
to_int? (finite false m k) = if ltb (m / 2 ^ k) (2 ^ 31) then some (pos (m / 2 ^ k)) else none

-- `(uint64_t)v` of a value that is not negative, where C defines it.
abbrev pub to_u64? : Double → Option ℕ
to_u64? nan = none
to_u64? (infinite s) = none
to_u64? (finite true m k) = if leb (m / 2 ^ k) 0 then some 0 else none
to_u64? (finite false m k) = if ltb (m / 2 ^ k) (2 ^ 64) then some (m / 2 ^ k) else none
