-- ===== src/Prelude/Decimal.antt =====
-- Decimal numbers as printf writes them and atoi reads them, for the C library of 64-bit Linux.
use Prim.Native.Nat.{ℕ, zero, suc, ◌+◌, ◌-◌, ◌*◌, ◌/◌, ◌%◌, ◌^◌, ◌<◌, min}
use mathlib.Core.Path.{◌≡◌, refl, ap, sym, ◌∙◌}
use mathlib.Core.Logic.{inl, inr}
use mathlib.Core.Bool.{true, false}
use mathlib.Core.List.{[], ◌∷◌, ◌++◌, append_assoc, append-nil}
use native.Mathlib.Omega.{arith}
use leo_one.Prelude.Tests.{ltb, ◌==◌, if◌then◌else◌, Bool-cases}
use leo_one.Prelude.Text.{Bytes, is_space, is_digit}
use leo_one.Prelude.Int.{ℤ, pos, negsuc, of_bits32}
use leo_one.Prelude.Lists.{All, All-append}

-- `%u`, for a number of at most `rounds` digits.
unfoldable pub digits : ℕ → ℕ → Bytes
digits zero n = []
digits (suc rounds) n =
    let front = digits rounds (n / 10) in (if ltb n 10 then [] else front) ++ ((b'0' + n % 10) ∷ [])

-- Twenty digits hold every 64-bit number.
unfoldable pub decimal : ℕ → Bytes
unfolding digits
decimal n = digits 20 n

-- `%d`
unfoldable pub print_int : ℤ → Bytes
unfolding decimal
print_int (pos n) = decimal n
print_int (negsuc n) = b'-' ∷ decimal (n + 1)

-- The digits that a text begins with, behind those that `acc` holds.
unfoldable pub scan : ℕ → Bytes → ℕ
scan acc [] = acc
scan acc (c ∷ s) = let more = scan (acc * 10 + (c - b'0')) s in if is_digit c then more else acc

unfoldable pub skip_spaces : Bytes → Bytes
skip_spaces [] = []
skip_spaces (c ∷ s) = if is_space c then skip_spaces s else c ∷ s

-- `(int)` of a `long`, which strtol holds within its range.
abbrev pub int_of_pos : ℕ → ℤ
int_of_pos n = of_bits32 (min n (2 ^ 63 - 1) % 2 ^ 32)

abbrev pub int_of_neg : ℕ → ℤ
int_of_neg n = of_bits32 ((2 ^ 64 - min n (2 ^ 63)) % 2 ^ 32)

unfoldable pub atoi_signed : Bytes → ℤ
unfolding scan
atoi_signed [] = pos 0
atoi_signed (c ∷ s) =
    if c == b'-'
    then int_of_neg (scan 0 s)
    else if c == b'+'
    then int_of_pos (scan 0 s)
    else int_of_pos (scan 0 (c ∷ s))

unfoldable pub atoi : Bytes → ℤ
unfolding skip_spaces atoi_signed
atoi s = atoi_signed (skip_spaces s)

-- The first number that `rounds` digits do not hold.
abbrev pub tens : ℕ → ℕ
tens zero = 1
tens (suc rounds) = 10 * tens rounds

-- A text that does not go on with a digit.
abbrev pub EndsNumber : Bytes → Type 0
EndsNumber [] = Unit
EndsNumber (c ∷ s) = is_digit c ≡ false

scan_digit :
    (acc n : ℕ) (rest : Bytes) → scan acc ((b'0' + n % 10) ∷ rest) ≡ scan (acc * 10 + n % 10) rest
unfolding scan
scan_digit acc n rest = ground arith

scan-digits :
    (rounds n : ℕ) (rest : Bytes) → n < tens rounds → scan 0 (digits rounds n ++ rest) ≡ scan n rest
unfolding digits
scan-digits zero n rest h = ap (λ k. scan k rest) (omega arith)
scan-digits (suc rounds) n rest h = elim (Bool-cases (ltb n 10)) [
  | inl one ↦ rw one (scan_digit 0 n rest ∙ ap (λ k. scan k rest) (ground arith))
  | inr more ↦ rw more (
      ap (scan 0) (append_assoc (digits rounds (n / 10)) ((b'0' + n % 10) ∷ []) rest)
      ∙ scan-digits rounds (n / 10) ((b'0' + n % 10) ∷ rest) (omega arith)
      ∙ scan_digit (n / 10) n rest
      ∙ ap (λ k. scan k rest) (omega arith))
]

scan_end : (n : ℕ) (rest : Bytes) → EndsNumber rest → scan n rest ≡ n
unfolding scan
scan_end n [] h = refl
scan_end n (c ∷ s) h = ground arith

pub scan-decimal :
    (n : ℕ) (rest : Bytes) → n < 2 ^ 64 → EndsNumber rest → scan 0 (decimal n ++ rest) ≡ n
unfolding decimal
scan-decimal n rest h e = scan-digits 20 n rest (omega arith) ∙ scan_end n rest e

-- A printed number begins with a digit.
abbrev pub StartsWithDigit : Bytes → Type 0
StartsWithDigit [] = ⊥
StartsWithDigit (c ∷ s) = is_digit c ≡ true

StartsWithDigit-append : (s t : Bytes) → StartsWithDigit s → StartsWithDigit (s ++ t)
StartsWithDigit-append [] t h = absurd h
StartsWithDigit-append (c ∷ s) t h = h

digits-StartsWithDigit :
    (rounds n : ℕ) → n < tens (suc rounds) → StartsWithDigit (digits (suc rounds) n)
unfolding digits
digits-StartsWithDigit zero n h = let one : ltb n 10 ≡ true = ground arith in rw one (ground arith)
digits-StartsWithDigit (suc rounds) n h = elim (Bool-cases (ltb n 10)) [
  | inl one ↦ rw one (ground arith)
  | inr more ↦ rw more (
      StartsWithDigit-append (digits (suc rounds) (n / 10)) ((b'0' + n % 10) ∷ [])
        (unfold digits in digits-StartsWithDigit rounds (n / 10) (omega arith)))
]

pub decimal-StartsWithDigit :
    (n : ℕ) (rest : Bytes) → n < 2 ^ 64 → StartsWithDigit (decimal n ++ rest)
unfolding decimal
decimal-StartsWithDigit n rest h =
    StartsWithDigit-append (digits 20 n) rest (digits-StartsWithDigit 19 n (omega arith))

atoi_of_digit : (s : Bytes) → StartsWithDigit s → atoi s ≡ int_of_pos (scan 0 s)
unfolding atoi
atoi_of_digit [] h = absurd h
atoi_of_digit (c ∷ s) h = ground arith

-- atoi reads back what `%u` wrote of an `int` that is not negative, whatever follows but a digit.
pub atoi-decimal :
    (n : ℕ) (rest : Bytes) → n < 2 ^ 31 → EndsNumber rest → atoi (decimal n ++ rest) ≡ pos n
atoi-decimal n rest h e =
    atoi_of_digit (decimal n ++ rest) (decimal-StartsWithDigit n rest (omega arith))
    ∙ ap int_of_pos (scan-decimal n rest (omega arith) e)
    ∙ ground arith

atoi_minus : (s : Bytes) → atoi (b'-' ∷ s) ≡ int_of_neg (scan 0 s)
unfolding atoi
atoi_minus s = refl

-- The range of a C `int`.
abbrev pub IsInt : ℤ → Type 0
IsInt (pos n) = n < 2 ^ 31
IsInt (negsuc n) = n < 2 ^ 31

-- atoi reads back what `%d` wrote.
pub atoi-print_int : (z : ℤ) → IsInt z → atoi (print_int z) ≡ z
unfolding print_int
atoi-print_int (pos n) h = ap atoi (sym (append-nil (decimal n))) ∙ atoi-decimal n [] h tt
atoi-print_int (negsuc n) h =
    atoi_minus (decimal (n + 1))
    ∙ ap int_of_neg (
        ap (scan 0) (sym (append-nil (decimal (n + 1)))) ∙ scan-decimal (n + 1) [] (omega arith) tt)
    ∙ ground arith

digits-is_digit : (rounds n : ℕ) → All (λ c. is_digit c ≡ true) (digits rounds n)
unfolding digits
digits-is_digit zero n = tt
digits-is_digit (suc rounds) n = elim (Bool-cases (ltb n 10)) [
  | inl one ↦ rw one (ground arith, tt)
  | inr more ↦ rw more (
      All-append (λ c. is_digit c ≡ true) (digits rounds (n / 10)) ((b'0' + n % 10) ∷ [])
        (digits-is_digit rounds (n / 10)) (ground arith, tt))
]

-- A printed number holds digits only.
pub decimal-is_digit : (n : ℕ) → All (λ c. is_digit c ≡ true) (decimal n)
unfolding decimal
decimal-is_digit n = digits-is_digit 20 n
