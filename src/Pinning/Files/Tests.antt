-- ===== src/Pinning/Files/Tests.antt =====
-- A certificate and a key that are saved and loaded again.
use leo_one.Prelude.{Bytes, bytes, ◌≡◌, refl, true, false, some, List, [], ◌∷◌, append-nil, arith}
use leo_one.Types.{ok}
use leo_one.Pinning.Files.{Disk, write_file, mkdir_p, save_cert_key}
use leo_one.Pinning.Files.Stored.{IsReadable}

-- A file is read in one piece.
abbrev pub piece_of : Bytes → List Bytes
piece_of [] = []
piece_of (c ∷ cs) = (c ∷ cs) ∷ []

abbrev pub sound_disk : Disk
sound_disk = record {
  opens = λ path. true;
  pieces = piece_of;
  fails = λ path. false;
  creates = λ path. true;
  fchmod = λ path. true;
  fwrite = λ content. 4096;
  fclose = λ path. 4096;
  mkdir = λ path. true;
}

pub sound_disk-IsReadable : IsReadable sound_disk
sound_disk-IsReadable [] = (refl, (refl, (refl, tt)))
sound_disk-IsReadable (c ∷ cs) = (refl, (refl, (append-nil (c ∷ cs), (omega arith, tt))))

saves : (save_cert_key sound_disk [] (some (bytes "CERT")) (some (bytes "KEY"))).1 ≡ ok
unfolding save_cert_key write_file mkdir_p
saves = refl
