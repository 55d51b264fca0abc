-- ===== src/Pinning/Sound.antt =====
-- The pin decides: the server that is accepted is the one whose certificate has the pinned digest.
use leo_one.Prelude.{
  Option-cases, length, All, Bytes, ℕ, zero, suc, ◌/◌, ◌%◌, ◌<◌, ◌≡◌, refl, sym, ap, ap₂, ◌∙◌, ◌↔◌,
  inl, inr, true, Option, none, some, [], ◌∷◌, map, arith,
}
use leo_one.Protocol.Uuid.{hex_digit}
use leo_one.Pinning.{
  bytes_to_hex, to_lower, str_case_eq, accepted, hash_export, digest, x509_sha256_hex,
  fingerprint_matches, verify_server,
}

-- Bytes, as OpenSSL writes them into an array of unsigned char.
abbrev pub IsByte : ℕ → Type 0
IsByte b = b < 256

str_case_eq-map : (a b : Bytes) → str_case_eq a b ≡ true → map to_lower a ≡ map to_lower b
unfolding str_case_eq
str_case_eq-map [] [] h = refl
str_case_eq-map [] (y ∷ b) h = cc
str_case_eq-map (x ∷ a) [] h = cc
str_case_eq-map (x ∷ a) (y ∷ b) h = ground (arith, str_case_eq-map a b)

hex_digit-injective : (m n : ℕ) → m < 16 → n < 16 → hex_digit m ≡ hex_digit n → m ≡ n
hex_digit-injective m n hm hn h = ground arith

to_lower-hex_digit : (n : ℕ) → n < 16 → to_lower (hex_digit n) ≡ hex_digit n
to_lower-hex_digit n h = ground arith

map-to_lower-hex : (d : Bytes) → All IsByte d → map to_lower (bytes_to_hex d) ≡ bytes_to_hex d
unfolding bytes_to_hex
map-to_lower-hex [] h = refl
map-to_lower-hex (b ∷ d) (hb, hd) =
    ap₂ ◌∷◌ (to_lower-hex_digit (b / 16) (omega arith))
      (ap₂ ◌∷◌ (to_lower-hex_digit (b % 16) (omega arith)) (map-to_lower-hex d hd))

bytes_to_hex-injective :
    (d e : Bytes) → All IsByte d → All IsByte e → bytes_to_hex d ≡ bytes_to_hex e → d ≡ e
unfolding bytes_to_hex
bytes_to_hex-injective [] [] hd he h = refl
bytes_to_hex-injective [] (x ∷ e) hd he h = cc
bytes_to_hex-injective (x ∷ d) [] hd he h = cc
bytes_to_hex-injective (x ∷ d) (y ∷ e) (hx, hd) (hy, he) h = ground (
  arith,
  hex_digit-injective (x / 16) (y / 16),
  hex_digit-injective (x % 16) (y % 16),
  bytes_to_hex-injective d e hd he,
)

-- Two digests whose hexadecimal forms match one pin are the same digest.
digests_of_pin :
    (d e pin : Bytes)
    → All IsByte d
    → All IsByte e
    → str_case_eq (bytes_to_hex d) pin ≡ true
    → str_case_eq (bytes_to_hex e) pin ≡ true
    → d ≡ e
digests_of_pin d e pin hd he p q = bytes_to_hex-injective d e hd he (
    sym (map-to_lower-hex d hd)
    ∙ str_case_eq-map _ pin p
    ∙ sym (str_case_eq-map _ pin q)
    ∙ map-to_lower-hex e he)

module _ {Cert : Type 0} (der : Cert → Option Bytes) (sha256 : Bytes → Option Bytes) where
  -- The leaf certificate has the pinned digest, in hexadecimal of either case.
  abbrev pub IsPinned : Cert → Bytes → Type 0
  IsPinned cert pin =
      (d : Bytes) × (digest der sha256 cert ≡ some d)
      × (length pin ≡ 64)
      × (str_case_eq (bytes_to_hex d) pin ≡ true)

  fingerprint_matches-IsPinned :
      (cert : Cert) (pin : Bytes)
      → fingerprint_matches der sha256 cert pin ≡ true
      → IsPinned cert pin
  unfolding fingerprint_matches x509_sha256_hex
  fingerprint_matches-IsPinned cert pin h = elim (Option-cases (digest der sha256 cert)) [
    | inl e ↦ absurd (ground arith)
    | inr (d, e) ↦ (d, e, ground arith, ground arith)
  ]

  IsPinned-fingerprint_matches :
      (cert : Cert) (pin : Bytes)
      → IsPinned cert pin
      → fingerprint_matches der sha256 cert pin ≡ true
  unfolding fingerprint_matches x509_sha256_hex
  IsPinned-fingerprint_matches cert pin (d, e, n, m) = ground arith

  -- What the pin asks of a store context.
  abbrev pub Trusts : Option (ℕ × Option Cert) → Option Bytes → Type 0
  Trusts none pin = ⊥
  Trusts (some (suc depth, cert)) pin = Unit
  Trusts (some (zero, none)) pin = ⊥
  Trusts (some (zero, some cert)) none = ⊥
  Trusts (some (zero, some cert)) (some pin) = IsPinned cert pin

  -- The check accepts a certificate above the leaf, accepts the leaf exactly if its SHA-256 digest is
  -- the pinned one in hexadecimal, whatever OpenSSL thought of the chain, and rejects where the store
  -- context, the leaf or the pin is missing.
  pub verify_server_iff :
      (ctx : Option (ℕ × Option Cert)) (pin : Option Bytes)
      → (verify_server der sha256 ctx pin ≡ accepted) ↔ Trusts ctx pin
  unfolding verify_server
  verify_server_iff none pin = ((λ h. cc), λ h. absurd h)
  verify_server_iff (some (suc depth, cert)) pin = ((λ h. tt), λ h. refl)
  verify_server_iff (some (zero, none)) pin = ((λ h. cc), λ h. absurd h)
  verify_server_iff (some (zero, some cert)) none = ((λ h. cc), λ h. absurd h)
  verify_server_iff (some (zero, some cert)) (some pin) = (
    (λ h. fingerprint_matches-IsPinned cert pin (ground arith)),
    λ h. rw (IsPinned-fingerprint_matches cert pin h) refl,
  )

  hash_export-IsByte :
      ((x d : Bytes) → sha256 x ≡ some d → All IsByte d)
      → (o : Option Bytes) (d : Bytes) → hash_export der sha256 o ≡ some d
      → All IsByte d
  unfolding hash_export
  hash_export-IsByte bytes_out none d h = cc
  hash_export-IsByte bytes_out (some []) d h = cc
  hash_export-IsByte bytes_out (some (b ∷ bs)) d h = bytes_out (b ∷ bs) d h

  -- Two leaf certificates that one pin accepts have the same SHA-256 digest, provided that digests
  -- consist of bytes.
  pub verify_server_unique :
      (a b : Cert) (pin : Bytes)
      → ((x d : Bytes) → sha256 x ≡ some d → All IsByte d)
      → verify_server der sha256 (some (0, some a)) (some pin) ≡ accepted
      → verify_server der sha256 (some (0, some b)) (some pin) ≡ accepted
      → (d : Bytes) × (digest der sha256 a ≡ some d) × (digest der sha256 b ≡ some d)
  unfolding digest
  verify_server_unique a b pin bytes_out ha hb =
      let (d, da, _, ma) = (verify_server_iff (some (0, some a)) (some pin)).0 ha in
      let (e, eb, _, mb) = (verify_server_iff (some (0, some b)) (some pin)).0 hb in
      (d, da, eb ∙ ap some (sym (digests_of_pin d e pin (bytes_of a d da) (bytes_of b e eb) ma mb)))
    where
      bytes_of : (c : Cert) (x : Bytes) → digest der sha256 c ≡ some x → All IsByte x
      bytes_of c x h = hash_export-IsByte bytes_out (der c) x h
