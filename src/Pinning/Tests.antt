-- ===== src/Pinning/Tests.antt =====
-- The pin of a concrete certificate.
use leo_one.Prelude.{replicate, Bytes, bytes, ℕ, ◌%◌, ◌≡◌, ◌↔◌, Option, some, [], ◌∷◌}
use leo_one.Pinning.{accepted, verify_server}
use leo_one.Pinning.Sound.{Trusts, verify_server_iff}

-- A certificate is its own DER form, and its digest thirty-two bytes that all are its first one.
abbrev own_der : Bytes → Option Bytes
own_der c = some c

abbrev first_of : Bytes → ℕ
first_of [] = 0
first_of (b ∷ bs) = b % 256

abbrev toy_sha256 : Bytes → Option Bytes
toy_sha256 x = some (replicate 32 (first_of x))

abbrev pin : Bytes
pin = bytes "ABabABabABabABabABabABabABabABabABabABabABabABabABabABabABabABab"

verify_server_iff_example :
    (verify_server own_der toy_sha256 (some (0, some (171 ∷ []))) (some pin) ≡ accepted)
    ↔ Trusts own_der toy_sha256 (some (0, some (171 ∷ []))) (some pin)
verify_server_iff_example =
    verify_server_iff own_der toy_sha256 (some (0, some (171 ∷ []))) (some pin)
