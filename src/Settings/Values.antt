-- ===== src/Settings/Values.antt =====
-- agent/src/config.c: how a line that `leo_config_save` writes is split again.
use leo_one.Prelude.{
  leb, ◌==◌, length, drop, all, All, length-append, take-append, All-append, All-weaken, Bytes,
  find_index, is_space, is_digit, ℕ, zero, suc, ◌+◌, ◌/◌, ◌%◌, ◌≤◌, ◌≡◌, refl, ap, ap₂, ◌∙◌, ◌≢◌,
  Bool, true, false, ◌&&◌, ◌||◌, some, [], ◌∷◌, ◌++◌, append_assoc, arith,
}
use leo_one.Prelude.Decimal.{digits, decimal, print_int, skip_spaces, decimal-is_digit}
use leo_one.Settings.{c_string, trim_end, trim, is_skipped, key_value_at, key_value}
use leo_one.Settings.Lines.{IsLine}
use leo_one.Prelude.Int.{ℤ, pos, negsuc}

-- The bytes of the keys: no space, no separator, no comment sign, no terminator.
abbrev pub key_char : ℕ → Bool
key_char c = leb b'A' c && leb c b'z'

abbrev pub IsKey : Bytes → Type 0
IsKey [] = ⊥
IsKey (c ∷ s) = all key_char (c ∷ s) ≡ true

-- Neither a newline nor a terminator.
abbrev pub Plain : ℕ → Type 0
Plain c = (c ≢ b'\n') × (c ≢ 0)

-- A value that a line of the file can hold: on one line, a C string, without spaces at its ends, and
-- within `room`.
abbrev pub IsValue : ℕ → Bytes → Type 0
IsValue room v = All Plain v × ((skip_spaces v ≡ v) × ((trim_end v ≡ v) × (length v ≤ room)))

abbrev pub line_of : Bytes × Bytes → Bytes
line_of (k, v) = k ++ (b'=' ∷ v)

pub c_string-of-All : (s : Bytes) → All (λ c. c ≢ 0) s → c_string s ≡ s
unfolding c_string
c_string-of-All [] h = refl
c_string-of-All (c ∷ s) h = ground (arith, h.0, c_string-of-All s h.1)

trim_end-append :
    (k s : Bytes) → all key_char k ≡ true → trim_end (k ++ (b'=' ∷ s)) ≡ k ++ (b'=' ∷ trim_end s)
unfolding trim_end
trim_end-append [] s h = ground arith
trim_end-append (c ∷ k) s h = ground (arith, trim_end-append k s)

trim_end_newline : (v : Bytes) → trim_end (v ++ (b'\n' ∷ [])) ≡ trim_end v
unfolding trim_end
trim_end_newline [] = ground arith
trim_end_newline (c ∷ v) = ground (arith, trim_end_newline v)

trim_end_spaceless : (s : Bytes) → All (λ c. is_space c ≡ false) s → trim_end s ≡ s
unfolding trim_end
trim_end_spaceless [] h = refl
trim_end_spaceless (c ∷ s) h = ground (arith, h.0, trim_end_spaceless s h.1)

skip_spaces_spaceless : (s : Bytes) → All (λ c. is_space c ≡ false) s → skip_spaces s ≡ s
unfolding skip_spaces
skip_spaces_spaceless [] h = refl
skip_spaces_spaceless (c ∷ s) h = ground (arith, h.0)

IsKey-spaceless : (k : Bytes) → all key_char k ≡ true → All (λ c. is_space c ≡ false) k
IsKey-spaceless [] h = tt
IsKey-spaceless (c ∷ k) h = (ground arith, IsKey-spaceless k (ground arith))

trim-key : (k : Bytes) → all key_char k ≡ true → trim k ≡ k
unfolding trim
trim-key k h =
    ap trim_end (skip_spaces_spaceless k (IsKey-spaceless k h))
    ∙ trim_end_spaceless k (IsKey-spaceless k h)

trim-value : {room : ℕ} (v : Bytes) → IsValue room v → trim v ≡ v
unfolding trim
trim-value v h = ap trim_end h.1.0 ∙ h.1.1.0

find_index-key :
    (k s : Bytes) → all key_char k ≡ true → find_index b'=' (k ++ (b'=' ∷ s)) ≡ some (length k)
unfolding find_index
find_index-key [] s h = refl
find_index-key (c ∷ k) s h = ground (arith, find_index-key k s)

trim-line_of :
    (k v : Bytes) {room : ℕ}
    → IsKey k
    → IsValue room v
    → trim (line_of (k, v) ++ (b'\n' ∷ [])) ≡ line_of (k, v)
unfolding trim skip_spaces
trim-line_of [] v h w = absurd h
trim-line_of (c ∷ k) v h w =
    let rest : trim_end (((c ∷ k) ++ (b'=' ∷ v)) ++ (b'\n' ∷ [])) ≡ (c ∷ k) ++ (b'=' ∷ v) =
      ap trim_end (append_assoc (c ∷ k) (b'=' ∷ v) (b'\n' ∷ []))
      ∙ trim_end-append (c ∷ k) (v ++ (b'\n' ∷ [])) h
      ∙ ap (λ t. (c ∷ k) ++ (b'=' ∷ t)) (trim_end_newline v ∙ w.1.1.0) in
    let none_leading : is_space c ≡ false = ground arith in rw none_leading rest

drop-key : (k v : Bytes) → drop (suc (length k)) (line_of (k, v)) ≡ v
drop-key [] v = refl
drop-key (c ∷ k) v = drop-key k v

key_value_at-line_of :
    (k v : Bytes) {room : ℕ}
    → all key_char k ≡ true
    → IsValue room v
    → key_value_at (line_of (k, v)) (some (length k)) ≡ some (k, v)
unfolding key_value_at
key_value_at-line_of k v h w =
    ap₂ (λ a b. some (a, b)) (ap trim (take-append k (b'=' ∷ v)) ∙ trim-key k h)
      (ap trim (drop-key k v) ∙ trim-value v w)

IsKey-Plain : (k : Bytes) → all key_char k ≡ true → All Plain k
IsKey-Plain [] h = tt
IsKey-Plain (c ∷ k) h = ((λ e. ground arith, λ e. ground arith), IsKey-Plain k (ground arith))

line_of-Plain : (k v : Bytes) → all key_char k ≡ true → All Plain v → All Plain (line_of (k, v))
line_of-Plain k v h w =
    All-append Plain k (b'=' ∷ v) (IsKey-Plain k h) ((λ e. ground arith, λ e. ground arith), w)

pub line_of-IsLine :
    (k v : Bytes) {room : ℕ} → all key_char k ≡ true → IsValue room v → IsLine (line_of (k, v))
line_of-IsLine k v h w = All-weaken (λ c p. p.0) (line_of (k, v)) (line_of-Plain k v h w.0)

line_of-terminator :
    (k v : Bytes) {room : ℕ}
    → all key_char k ≡ true
    → IsValue room v
    → All (λ c. c ≢ 0) (line_of (k, v) ++ (b'\n' ∷ []))
line_of-terminator k v h w =
    All-append (λ c. c ≢ 0) (line_of (k, v)) (b'\n' ∷ [])
      (All-weaken (λ c p. p.1) (line_of (k, v)) (line_of-Plain k v h w.0)) ((λ e. ground arith), tt)

pub key_value-line_of :
    (k v : Bytes) {room : ℕ}
    → IsKey k
    → IsValue room v
    → key_value (line_of (k, v) ++ (b'\n' ∷ [])) ≡ some (k, v)
unfolding key_value
key_value-line_of [] v h w = absurd h
key_value-line_of (c ∷ k) v h w =
    let whole : trim (c_string (line_of (c ∷ k, v) ++ (b'\n' ∷ []))) ≡ line_of (c ∷ k, v) =
      ap trim
        (c_string-of-All (line_of (c ∷ k, v) ++ (b'\n' ∷ [])) (line_of-terminator (c ∷ k) v h w))
      ∙ trim-line_of (c ∷ k) v h w in
    let at : find_index b'=' (line_of (c ∷ k, v)) ≡ some (length (c ∷ k)) =
      find_index-key (c ∷ k) v h in
    let shown : is_skipped (line_of (c ∷ k, v)) ≡ false = ground arith in
    rw whole rw shown rw at (key_value_at-line_of (c ∷ k) v h w)

-- A printed `int` is such a value.
abbrev pub Digit : ℕ → Type 0
Digit c = (is_digit c || c == b'-') ≡ true

print_int-Digit : (z : ℤ) → All Digit (print_int z)
unfolding print_int
print_int-Digit (pos n) = All-weaken (λ c h. ground arith) (decimal n) (decimal-is_digit n)
print_int-Digit (negsuc n) =
    (refl, All-weaken (λ c h. ground arith) (decimal (n + 1)) (decimal-is_digit (n + 1)))

length-digits : (rounds n : ℕ) → length (digits rounds n) ≤ rounds
unfolding digits
length-digits zero n = omega arith
length-digits (suc rounds) n = ground (
  arith,
  length-digits rounds (n / 10),
  length-append (digits rounds (n / 10)) ((b'0' + n % 10) ∷ []),
)

length-print_int : (z : ℤ) → length (print_int z) ≤ 21
unfolding print_int decimal
length-print_int (pos n) = omega (arith, length-digits 20 n)
length-print_int (negsuc n) = omega (arith, length-digits 20 (n + 1))

pub print_int-IsValue : (z : ℤ) → IsValue 21 (print_int z)
print_int-IsValue z =
    let spaceless : All (λ c. is_space c ≡ false) (print_int z) =
      All-weaken (λ c h. ground arith) (print_int z) (print_int-Digit z) in
    (
      All-weaken (λ c h. (λ e. ground arith, λ e. ground arith)) (print_int z) (print_int-Digit z),
      (
        skip_spaces_spaceless (print_int z) spaceless,
        (trim_end_spaceless (print_int z) spaceless, length-print_int z),
      ),
    )
