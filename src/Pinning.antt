-- ===== src/Pinning.antt =====
-- agent/platform/linux/crypto_linux.c, the fingerprint of a certificate, and the server check that
-- connection.c and remote_desktop.c make by it. OpenSSL's two calls are parameters: `der` is
-- i2d_X509 and `sha256` is EVP_Digest, each `none` where the call fails.
mod Tests
pub mod Sound
pub mod Files
use leo_one.Prelude.{
  leb, ◌==◌, if◌then◌else◌, length, Bytes, ℕ, zero, suc, ◌+◌, Bool, true, false, ◌&&◌, Option, none,
  some, [], ◌∷◌, ◌++◌,
}
use leo_one.Protocol.Uuid.{hex_byte}
use leo_one.Types.{LeoError, ok, err_tls}

-- `_bytes_to_hex`
unfoldable pub bytes_to_hex : Bytes → Bytes
bytes_to_hex [] = []
bytes_to_hex (b ∷ bs) = hex_byte b ++ bytes_to_hex bs

-- `tolower` in the C locale
abbrev pub to_lower : ℕ → ℕ
to_lower c = if leb b'A' c && leb c b'Z' then c + 32 else c

-- `strcasecmp(a, b) == 0`
unfoldable pub str_case_eq : Bytes → Bytes → Bool
str_case_eq [] [] = true
str_case_eq [] (y ∷ ys) = false
str_case_eq (x ∷ xs) [] = false
str_case_eq (x ∷ xs) (y ∷ ys) = (to_lower x == to_lower y) && str_case_eq xs ys

-- What a verification callback says to OpenSSL: 0 or 1.
pub data Verdict : Type 0 where
  accepted rejected : Verdict

module _ {Cert : Type 0} (der : Cert → Option Bytes) (sha256 : Bytes → Option Bytes) where
  hash_export : Option Bytes → Option Bytes
  hash_export none = none
  hash_export (some []) = none
  hash_export (some (b ∷ bs)) = sha256 (b ∷ bs)

  -- The digest of the certificate's DER form; an empty export counts as a failure.
  pub digest : Cert → Option Bytes
  unfolding hash_export
  digest cert = hash_export (der cert)

  hex_of : Option Bytes → Option Bytes
  hex_of none = none
  hex_of (some d) = some (bytes_to_hex d)

  -- `_x509_sha256_hex`
  pub x509_sha256_hex : Cert → Option Bytes
  unfolding hex_of
  x509_sha256_hex cert = hex_of (digest cert)

  matches_hex : Option Bytes → Bytes → Bool
  matches_hex none expected = false
  matches_hex (some computed) expected = str_case_eq computed expected

  -- `leo_crypto_x509_fingerprint_matches`, on pointers that are not NULL
  pub fingerprint_matches : Cert → Bytes → Bool
  unfolding matches_hex
  fingerprint_matches cert expected =
      if length expected == 64 then matches_hex (x509_sha256_hex cert) expected else false

  -- LWS_CALLBACK_OPENSSL_PERFORM_SERVER_CERT_VERIFICATION: the store context, if there is one, is
  -- the depth at which OpenSSL stands and the certificate there.
  pub verify_server : Option (ℕ × Option Cert) → Option Bytes → Verdict
  verify_server none expected = rejected
  verify_server (some (suc depth, cert)) expected = accepted
  verify_server (some (zero, none)) expected = rejected
  verify_server (some (zero, some cert)) none = rejected
  verify_server (some (zero, some cert)) (some expected) =
      if fingerprint_matches cert expected then accepted else rejected

-- `leo_crypto_verify_ca_fingerprint`: the certificate that the PEM text holds, if it parses.
module _ {Cert : Type 0} (read_pem : Bytes → Option Cert) (der : Cert → Option Bytes)
    (sha256 : Bytes → Option Bytes) where
  verify_cert : Option Cert → Bytes → LeoError
  verify_cert none expected = err_tls
  verify_cert (some cert) expected =
      if matches_hex der sha256 (x509_sha256_hex der sha256 cert) expected then ok else err_tls

  pub verify_ca_fingerprint : Bytes → Bytes → LeoError
  unfolding verify_cert matches_hex
  verify_ca_fingerprint pem expected =
      if length expected == 64 then verify_cert (read_pem pem) expected else err_tls
