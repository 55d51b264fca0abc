-- ===== src/Pinning/Files.antt =====
-- agent/platform/linux/crypto_linux.c: the files of the certificate and its private key.
pub mod Stored
pub mod Tests
use leo_one.Prelude.{
  ◌==◌, if◌then◌else◌, leb, length, take, Bytes, bytes, str_eq, ℕ, ◌-◌, min, Bool, true, false, not,
  ◌||◌, Option, none, some, List, [], ◌∷◌, ◌++◌,
}
use leo_one.Types.{LeoError, ok, err_tls}

-- `LEO_CERTS_DIR`
abbrev pub certs_dir : Bytes
certs_dir = bytes "/opt/leo-one/certs/"

-- `LEO_CLIENT_CERT_FILE`
abbrev pub client_cert_file : Bytes
client_cert_file = certs_dir ++ bytes "client_cert.pem"

-- `LEO_CLIENT_KEY_FILE`
abbrev pub client_key_file : Bytes
client_key_file = certs_dir ++ bytes "client_key.pem"

-- What the disk holds: each file's path, its bytes, and whether its mode was set to 0600.
pub record Saved : Type 0 where
  pub path : Bytes
  pub content : Bytes
  pub private : Bool

-- What the operating system and stdio do: whether fopen succeeds for reading and for writing, the pieces
-- that fread returns of a file, whether ferror reports an error, whether fchmod succeeds, how many bytes
-- fwrite takes at most, how many of them fclose can write out, and whether mkdir makes a directory or finds it.
pub record Disk : Type 0 where
  pub opens : Bytes → Bool
  pub pieces : Bytes → List Bytes
  pub fails : Bytes → Bool
  pub creates : Bytes → Bool
  pub fchmod : Bytes → Bool
  pub fwrite : Bytes → ℕ
  pub fclose : Bytes → ℕ
  pub mkdir : Bytes → Bool

-- The newest file of a path is the one that it names.
pub content_of : Bytes → List Saved → Option Bytes
content_of path [] = none
content_of path (s ∷ rest) = if str_eq s.path path then some s.content else content_of path rest

-- The loop of `_read_file`, with `room` bytes left: `buf_max - 1 - total`.
pub read_loop : ℕ → List Bytes → Bytes
read_loop room [] = []
read_loop room (piece ∷ rest) =
    let got = take room piece in
    let later = read_loop (room - length got) rest in
    if length got == 0 then [] else if leb room (length got) then got else got ++ later

read_content : Disk → Bytes → ℕ → Option Bytes → Option Bytes
unfolding read_loop
read_content d path buf_max none = none
read_content d path buf_max (some content) =
    if d.fails path then none else some (read_loop (buf_max - 1) (d.pieces content))

-- `_read_file`
pub read_file : Disk → List Saved → Bytes → ℕ → Option Bytes
unfolding content_of read_content
read_file d files path buf_max =
    if d.opens path then read_content d path buf_max (content_of path files) else none

-- `_write_file`: what the disk holds afterwards, and whether it says that it succeeded. fopen empties
-- the file; what fclose and fchmod return is not looked at.
unfoldable pub write_file : Disk → List Saved → Bytes → Bytes → List Saved × Bool
write_file d files path content =
    let written = min (d.fwrite content) (length content) in
    if d.creates path
    then (
      record {
        path = path;
        content = take (d.fclose path) (take written content);
        private = d.fchmod path;
      }
          ∷ files,
      written == length content,
    )
    else (files, false)

-- The loop of `_mkdir_p`: a call at each slash behind the first byte, and one at the end.
pub mkdir_loop : Disk → Bytes → Bytes → Bool
mkdir_loop d seen [] = d.mkdir seen
mkdir_loop d seen (c ∷ rest) =
    let later = mkdir_loop d (seen ++ c ∷ []) rest in
    if c == 47 then if d.mkdir seen then later else false else later

-- `tmp[len - 1] = '\0'` for a slash at the end
pub without_slash : Bytes → Bytes
without_slash [] = []
without_slash (c ∷ []) = if c == 47 then [] else c ∷ []
without_slash (c ∷ b ∷ rest) = c ∷ without_slash (b ∷ rest)

mkdir_from : Disk → Bytes → Bool
unfolding mkdir_loop
mkdir_from d [] = true
mkdir_from d (c ∷ rest) = mkdir_loop d (c ∷ []) rest

-- `_mkdir_p`: whether every directory is there.
unfoldable pub mkdir_p : Disk → Bytes → Bool
unfolding mkdir_from without_slash
mkdir_p d path = mkdir_from d (without_slash (take 511 path))

with_cert : Bytes → Option Bytes → Option (Bytes × Bytes)
with_cert cert none = none
with_cert cert (some key) = some (cert, key)

load_key : Disk → List Saved → Option Bytes → ℕ → Option (Bytes × Bytes)
unfolding with_cert read_file
load_key d files none key_sz = none
load_key d files (some cert) key_sz = with_cert cert (read_file d files client_key_file key_sz)

-- `leo_crypto_load_cert_key`, of two buffers: none is LEO_ERR_TLS.
pub load_cert_key : Disk → List Saved → ℕ → ℕ → Option (Bytes × Bytes)
unfolding load_key
load_cert_key d files cert_sz key_sz =
    if (cert_sz == 0) || (key_sz == 0)
    then none
    else load_key d files (read_file d files client_cert_file cert_sz) key_sz

save_key : Disk → Bytes → List Saved × Bool → List Saved × LeoError
save_key d key (files, false) = (files, err_tls)
save_key d key (files, true) =
    let written = write_file d files client_key_file key in
    (written.0, if written.1 then ok else err_tls)

-- `leo_crypto_save_cert_key`
unfoldable pub save_cert_key :
    Disk → List Saved → Option Bytes → Option Bytes → List Saved × LeoError
unfolding save_key
save_cert_key d files none key = (files, err_tls)
save_cert_key d files (some cert) none = (files, err_tls)
save_cert_key d files (some cert) (some key) =
    if mkdir_p d certs_dir
    then save_key d key (write_file d files client_cert_file cert)
    else (files, err_tls)
