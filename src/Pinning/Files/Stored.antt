-- ===== src/Pinning/Files/Stored.antt =====
-- agent/platform/linux/crypto_linux.c: what `leo_crypto_save_cert_key` saves is what
-- `leo_crypto_load_cert_key` loads at a later start.
use leo_one.Prelude.{
  Bool-cases, leb, ◌==◌, length, take, take-append_split, take-of-le, take_nil, All, Bytes, str_eq,
  str_eq_iff, ℕ, zero, suc, ◌-◌, min, ◌≤◌, ◌<◌, ◌≡◌, refl, sym, ap, ◌∙◌, inl, inr, Bool, true,
  false, ◌||◌, some, List, [], ◌∷◌, ◌++◌, append-nil, arith,
}
use leo_one.Types.{ok, err_tls}
use leo_one.Pinning.Files.{
  client_cert_file, client_key_file, certs_dir, Saved, Disk, content_of, read_loop, read_content,
  read_file, write_file, mkdir_p, with_cert, load_key, load_cert_key, save_key, save_cert_key,
}

abbrev joined : List Bytes → Bytes
joined [] = []
joined (piece ∷ rest) = piece ++ joined rest

abbrev IsFilled : Bytes → Type 0
IsFilled piece = 0 < length piece

-- Every file opens and is read without an error, in pieces that are not empty and together are its
-- bytes.
abbrev pub IsReadable : Disk → Type 0
IsReadable d =
    (x : Bytes)
    → (d.opens x ≡ true)
      × ((d.fails x ≡ false) × ((joined (d.pieces x) ≡ x) × All IsFilled (d.pieces x)))

-- The loop reads the file, as far as there is room.
read_loop_lem :
    (room : ℕ) (pieces : List Bytes)
    → All IsFilled pieces
    → read_loop room pieces ≡ take room (joined pieces)
unfolding read_loop
read_loop_lem room [] h = sym (take_nil room)
read_loop_lem zero (piece ∷ rest) h = refl
read_loop_lem (suc room) ([] ∷ rest) h = absurd (omega (arith, h.0))
read_loop_lem (suc room) ((c ∷ cs) ∷ rest) h =
    let got = c ∷ take room cs in
    let all : take (suc room) (c ∷ cs ++ joined rest)
        ≡ got ++ take (suc room - length got) (joined rest) =
      take-append_split (suc room) (c ∷ cs) (joined rest) in
    let nonempty : (length got == 0) ≡ false = ground arith in
    elim (Bool-cases (leb (suc room) (length got))) [
      | inl full ↦
          let used : suc room - length got ≡ 0 = ground (arith, full) in
          rw (nonempty, full)
            (sym (all ∙ ap (λ m. got ++ take m (joined rest)) used ∙ append-nil got))
      | inr space ↦
          rw (nonempty, space)
            (ap (◌++◌ got) (read_loop_lem (suc room - length got) rest h.1) ∙ sym all)
    ]

-- A file is read up to the last place of the buffer.
content_of-read_file :
    (d : Disk) (files : List Saved) (path content : Bytes) (buf_max : ℕ)
    → IsReadable d
    → content_of path files ≡ some content
    → read_file d files path buf_max ≡ some (take (buf_max - 1) content)
unfolding read_file read_content
content_of-read_file d files path content buf_max h found =
    let (whole, filled) = (h content).1.1 in
    rw
      (
        (h path).0,
        found,
        (h path).1.0,
        read_loop_lem (buf_max - 1) (d.pieces content) filled,
        whole,
      )
      refl

-- A write that succeeds leaves its text under its path, if fclose can write it out.
content_of-write_file :
    (d : Disk) (files : List Saved) (path content : Bytes)
    → length content ≤ d.fclose path
    → (write_file d files path content).1 ≡ true
    → content_of path (write_file d files path content).0 ≡ some content
unfolding write_file content_of
content_of-write_file d files path content room h = elim (Bool-cases (d.creates path)) [
  | inl made ↦
      let full : (min (d.fwrite content) (length content) == length content) ≡ true =
        rw made at h in
      let taken =
        take-of-le (min (d.fwrite content) (length content)) content (ground (arith, full)) in
      rw (made, (str_eq_iff path path).1 refl, taken)
        (ap some (take-of-le (d.fclose path) content room))
  | inr refused ↦ let failed : false ≡ true = rw refused at h in absurd (ground (arith, failed))
]

-- It leaves the files of other paths as they are.
content_of-write_file_ne :
    (d : Disk) (files : List Saved) (path other content : Bytes)
    → str_eq path other ≡ false
    → content_of other (write_file d files path content).0 ≡ content_of other files
unfolding write_file content_of
content_of-write_file_ne d files path other content h = elim (Bool-cases (d.creates path)) [
  | inl made ↦ rw (made, h) refl
  | inr refused ↦ rw refused refl
]

key_path-cert_path : str_eq client_key_file client_cert_file ≡ false
unfolding str_eq
key_path-cert_path = refl

save_key-content_of :
    (d : Disk) (cert key : Bytes) (w : List Saved × Bool)
    → length key ≤ d.fclose client_key_file
    → (w.1 ≡ true → content_of client_cert_file w.0 ≡ some cert)
    → (save_key d key w).1 ≡ ok
    → (content_of client_cert_file (save_key d key w).0 ≡ some cert)
      × (content_of client_key_file (save_key d key w).0 ≡ some key)
unfolding save_key
save_key-content_of d cert key (files, false) room before h = absurd (ground (arith, h))
save_key-content_of d cert key (files, true) room before h =
    let kept =
      content_of-write_file_ne d files client_key_file client_cert_file key key_path-cert_path in
    elim (Bool-cases ((write_file d files client_key_file key).1)) [
      | inl done ↦ (kept ∙ before refl, content_of-write_file d files client_key_file key room done)
      | inr short ↦ let failed : err_tls ≡ ok = rw short at h in absurd (ground (arith, failed))
    ]

save_cert_key-content_of :
    (d : Disk) (files : List Saved) (cert key : Bytes)
    → length cert ≤ d.fclose client_cert_file
    → length key ≤ d.fclose client_key_file
    → (save_cert_key d files (some cert) (some key)).1 ≡ ok
    → (content_of client_cert_file (save_cert_key d files (some cert) (some key)).0 ≡ some cert)
      × (content_of client_key_file (save_cert_key d files (some cert) (some key)).0 ≡ some key)
unfolding save_cert_key save_key
save_cert_key-content_of d files cert key cert_room key_room h =
    elim (Bool-cases (mkdir_p d certs_dir)) [
      | inl there ↦
          let saved : (save_key d key (write_file d files client_cert_file cert)).1 ≡ ok =
            rw there at h in
          rw there (
            save_key-content_of d cert key (write_file d files client_cert_file cert) key_room
              (content_of-write_file d files client_cert_file cert cert_room) saved)
      | inr missing ↦ let failed : err_tls ≡ ok = rw missing at h in absurd (ground (arith, failed))
    ]

-- Where every file can be read and fclose can write out both files, a save that reports success is
-- followed by loads of the same certificate and key, each up to the last place of its buffer.
pub load_cert_key-save_cert_key :
    (d : Disk) (files : List Saved) (cert key : Bytes) (cert_sz key_sz : ℕ)
    → IsReadable d
    → length cert ≤ d.fclose client_cert_file
    → length key ≤ d.fclose client_key_file
    → 0 < cert_sz
    → 0 < key_sz
    → (save_cert_key d files (some cert) (some key)).1 ≡ ok
    → load_cert_key d (save_cert_key d files (some cert) (some key)).0 cert_sz key_sz
      ≡ some (take (cert_sz - 1) cert, take (key_sz - 1) key)
unfolding load_cert_key load_key with_cert
load_cert_key-save_cert_key d files cert key cert_sz key_sz h cert_room key_room some_cert some_key
      done =
    let saved = (save_cert_key d files (some cert) (some key)).0 in
    let (cert_there, key_there) =
      save_cert_key-content_of d files cert key cert_room key_room done in
    let no_room : ((cert_sz == 0) || (key_sz == 0)) ≡ false = ground arith in
    rw
      (
        no_room,
        content_of-read_file d saved client_cert_file cert cert_sz h cert_there,
        content_of-read_file d saved client_key_file key key_sz h key_there,
      )
      refl
