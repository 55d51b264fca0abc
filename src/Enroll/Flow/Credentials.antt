-- ===== src/Enroll/Flow/Credentials.antt =====
-- agent/src/enroll.c with agent/platform/linux/crypto_linux.c: the certificate and the key of an
-- enrollment, as they are saved and loaded again.
use leo_one.Prelude.{
  take-of-le, Bytes, ◌-◌, ◌≤◌, ◌≡◌, ap₂, ap, ◌∙◌, inl, inr, true, false, Option, none, some, List,
  arith,
}
use leo_one.Types.{Config, ok}
use leo_one.Protocol.Tree.{Cjson}
use leo_one.Pinning.Files.{
  client_cert_file, client_key_file, Saved, Disk, load_cert_key, save_cert_key,
}
use leo_one.Pinning.Files.Stored.{IsReadable, load_cert_key-save_cert_key}
use leo_one.Enroll.Response.{cert_buf_size, key_buf_size}
use leo_one.Enroll.Flow.{World, Enrolled, leo_enroll}
use leo_one.Enroll.Flow.Stored.{Keeps, IsOutcome, leo_enroll-IsOutcome}

-- The enrollment saves on this disk, which has room for both files.
abbrev pub SavesOn : World → Disk → List Saved → Type 0
SavesOn w d files =
    ((cert key : Bytes)
      → w.saves_credentials cert key ≡ true
      → (save_cert_key d files (some cert) (some key)).1 ≡ ok)
    × (cert_buf_size - 1 ≤ d.fclose client_cert_file)
    × (key_buf_size - 1 ≤ d.fclose client_key_file)

-- There are credentials, and they are what is loaded behind their saving.
abbrev pub Loads : Disk → List Saved → Option (Bytes × Bytes) → Type 0
Loads d files none = false ≡ true
Loads d files (some (cert, key)) =
    load_cert_key d (save_cert_key d files (some cert) (some key)).0 cert_buf_size key_buf_size
    ≡ some (cert, key)

Keeps-Loads :
    (w : World) (d : Disk) (files : List Saved) (o : Option (Bytes × Bytes))
    → IsReadable d
    → SavesOn w d files
    → Keeps w o
    → Loads d files o
Keeps-Loads w d files none r s k = k
Keeps-Loads w d files (some (cert, key)) r (saves, cert_room, key_room)
      (kept, cert_fits, key_fits) =
    load_cert_key-save_cert_key d files cert key cert_buf_size key_buf_size r
      (omega (arith, cert_room, cert_fits)) (omega (arith, key_room, key_fits)) (omega arith)
      (omega arith) (saves cert key kept)
    ∙ ap some (
        ap₂ (λ c k. (c, k)) (take-of-le 8191 cert (omega (arith, cert_fits)))
          (take-of-le 8191 key (omega (arith, key_fits))))

IsOutcome-Keeps : (w : World) (e : Enrolled) → IsOutcome w e → e.ret ≡ ok → Keeps w e.credentials
IsOutcome-Keeps w e (inl h) success = h.5
IsOutcome-Keeps w e (inr h) success = absurd (h.0 success)

-- Behind an enrollment that reported success, on a disk that can be read and has room,
-- leo_crypto_load_cert_key gives back exactly the certificate and the key that the enrollment took from
-- the answer and handed to leo_crypto_save_cert_key, whole.
pub leo_enroll-load_cert_key :
    {Node : Type 0} (cj : Cjson Node) (w : World) (d : Disk) (files : List Saved) (old : Config)
    (e : Enrolled)
    → IsReadable d
    → SavesOn w d files
    → leo_enroll cj w old ≡ some e
    → e.ret ≡ ok
    → Loads d files e.credentials
leo_enroll-load_cert_key cj w d files old e r s ended success =
    Keeps-Loads w d files e.credentials r s
      (IsOutcome-Keeps w e (leo_enroll-IsOutcome cj w old e ended) success)
