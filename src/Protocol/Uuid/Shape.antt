-- ===== src/Protocol/Uuid/Shape.antt =====
-- The shape of the identifiers that the agent makes: RFC 4122, version 4.
use leo_one.Prelude.{
  ◌==◌, Bool-cases, length, get_or, Bytes, ℕ, zero, suc, ◌/◌, ◌<◌, ◌≡◌, refl, sym, inl, inr, Bool,
  true, ◌&&◌, ◌||◌, arith,
}
use leo_one.Protocol.Uuid.{hex_digit, version_byte, variant_byte, gen_uuid}

all_below : ℕ → (ℕ → Bool) → Bool
all_below zero p = true
all_below (suc n) p = p n && all_below n p

all_below-at : (n b : ℕ) (p : ℕ → Bool) → all_below n p ≡ true → b < n → p b ≡ true
unfolding all_below
all_below-at zero b p h k = absurd (omega arith)
all_below-at (suc n) b p h k = elim (Bool-cases (b == n)) [
  | inl same ↦
      let at_n : p n ≡ true = ground arith in let eq : n ≡ b = ground arith in rw (sym eq) at_n
  | inr other ↦ all_below-at n b p (ground arith) (ground arith)
]

-- One of the digits 8, 9, a and b.
abbrev pub is_variant : ℕ → Bool
is_variant c = c == b'8' || c == b'9' || c == b'a' || c == b'b'

abbrev version_ok : ℕ → Bool
version_ok b = hex_digit (version_byte b / 16) == b'4'

abbrev variant_ok : ℕ → Bool
variant_ok b = is_variant (hex_digit (variant_byte b / 16))

version_table : all_below 256 version_ok ≡ true
unfolding all_below version_byte
version_table = refl

variant_table : all_below 256 variant_ok ≡ true
unfolding all_below variant_byte
variant_table = refl

-- Whatever the random bytes are, the identifier has 36 characters with a dash at the places 8, 13, 18
-- and 23, says version 4 at place 14, and has one of 8, 9, a and b at place 19.
pub gen_uuid-shape :
    (rnd : Bytes)
    → get_or rnd 6 0 < 256
    → get_or rnd 8 0 < 256
    → (length (gen_uuid rnd) ≡ 36)
      × (get_or (gen_uuid rnd) 8 0 ≡ b'-')
      × (get_or (gen_uuid rnd) 13 0 ≡ b'-')
      × (get_or (gen_uuid rnd) 18 0 ≡ b'-')
      × (get_or (gen_uuid rnd) 23 0 ≡ b'-')
      × (get_or (gen_uuid rnd) 14 0 ≡ b'4')
      × (is_variant (get_or (gen_uuid rnd) 19 0) ≡ true)
unfolding gen_uuid
gen_uuid-shape rnd h k = (
  refl,
  refl,
  refl,
  refl,
  refl,
  ground (arith, all_below-at 256 (get_or rnd 6 0) version_ok version_table h),
  all_below-at 256 (get_or rnd 8 0) variant_ok variant_table k,
)
