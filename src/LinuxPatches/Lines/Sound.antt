-- ===== src/LinuxPatches/Lines/Sound.antt =====
-- agent/platform/linux/patches_linux.c: what a line that is accepted says.
use leo_one.Prelude.{
  leb, ◌==◌, Bool-cases, if_both, length, length-append, take, take-of-le, Bytes, bytes, ℕ, zero,
  suc, ◌-◌, ◌≤◌, ◌<◌, ◌≡◌, inl, inr, not, ◌&&◌, ◌||◌, Option, none, some, [], ◌∷◌, ◌++◌, arith,
}
use leo_one.Prelude.Decimal.{skip_spaces}
use leo_one.Types.{Patch, patch_id_max_len}
use leo_one.LinuxPatches.Lines.{
  cut, or_empty, title_of, severity_of, apt_patch, apt_version, apt_pocket, apt_name,
  parse_apt_line, has_byte, word, scan_word, dnf_patch, dnf_repo, dnf_version, dnf_name,
  parse_dnf_line,
}

-- A patch whose fields fit their buffers, with its name whole and its title whole.
abbrev pub Fits : Patch → Type 0
Fits p =
    (0 < length p.id)
    × (length p.id < patch_id_max_len)
    × ((version : Bytes) × (length version ≤ 63) × (p.title ≡ p.id ++ (bytes " → " ++ version)))

abbrev pub FitsIf : Option Patch → Type 0
FitsIf none = Unit
FitsIf (some p) = Fits p

pub title_whole :
    (name version : Bytes)
    → length name < patch_id_max_len
    → length version ≤ 63
    → title_of name version ≡ name ++ (bytes " → " ++ version)
title_whole name version h k =
    take-of-le 255 (name ++ (bytes " → " ++ version))
      (omega (arith, length-append name (bytes " → " ++ version)))

or_empty-le : (s : Bytes) → length (or_empty 64 s) ≤ 63
or_empty-le s = ground arith

apt_patch-FitsIf : (name pocket version : Bytes) → FitsIf (apt_patch name pocket version)
unfolding apt_patch
apt_patch-FitsIf name pocket version =
    elim (Bool-cases
      (length name == 0 || (leb patch_id_max_len (length name) || length version == 0))) [
        | inl bad ↦ rw bad tt
        | inr good ↦
            let long : length name < patch_id_max_len = ground (arith, good) in
            let filled : 0 < length name = ground (arith, good) in
            rw good (
              filled,
              long,
              (
                or_empty 64 version,
                or_empty-le version,
                title_whole name (or_empty 64 version) long (or_empty-le version),
              ),
            )
      ]

apt_version-FitsIf :
    (name pocket : Bytes) (o : Option (Bytes × Bytes)) → FitsIf (apt_version name pocket o)
unfolding apt_version
apt_version-FitsIf name pocket none = tt
apt_version-FitsIf name pocket (some (version, rest)) = apt_patch-FitsIf name pocket version

apt_pocket-FitsIf : (name : Bytes) (o : Option (Bytes × Bytes)) → FitsIf (apt_pocket name o)
unfolding apt_pocket
apt_pocket-FitsIf name none = tt
apt_pocket-FitsIf name (some (pocket, rest)) = apt_version-FitsIf name pocket (cut b' ' rest)

apt_name-FitsIf : (o : Option (Bytes × Bytes)) → FitsIf (apt_name o)
unfolding apt_name
apt_name-FitsIf none = tt
apt_name-FitsIf (some (name, rest)) = apt_pocket-FitsIf name (cut b' ' rest)

pub parse_apt_line-FitsIf : (line : Bytes) → FitsIf (parse_apt_line line)
unfolding parse_apt_line
parse_apt_line-FitsIf line = apt_name-FitsIf (cut b'/' line)

length-word : (width : ℕ) (s : Bytes) → length (word width s).0 ≤ width
unfolding word
length-word zero s = omega arith
length-word (suc width) [] = omega arith
length-word (suc width) (c ∷ s) = ground (arith, length-word width s)

-- A word that was scanned has a character and fits the width.
abbrev Scanned : ℕ → Option (Bytes × Bytes) → Type 0
Scanned width none = Unit
Scanned width (some (w, rest)) = (0 < length w) × (length w ≤ width)

scan_word-Scanned : (width : ℕ) (s : Bytes) → Scanned width (scan_word width s)
unfolding scan_word
scan_word-Scanned width s =
    let found = word width (skip_spaces s) in
    elim (Bool-cases (length found.0 == 0)) [
      | inl nothing ↦ rw nothing tt
      | inr some_word ↦ rw some_word (ground (arith, some_word), length-word width (skip_spaces s))
    ]

dnf_patch-FitsIf :
    (name_arch version repo : Bytes)
    → 0 < length name_arch
    → length name_arch ≤ 159
    → length version ≤ 63
    → FitsIf (dnf_patch name_arch version repo)
unfolding dnf_patch
dnf_patch-FitsIf name_arch version repo filled h k =
    if_both FitsIf (not (has_byte b'.' version) && not (has_byte b'-' version)) none
      (some record {
        id = take (patch_id_max_len - 1) name_arch;
        title = title_of name_arch version;
        severity = severity_of repo;
        size_bytes = 0;
      })
      tt
      (rw (take-of-le 159 name_arch h) (
        filled,
        omega (arith, h),
        (version, k, title_whole name_arch version (omega (arith, h)) k),
      ))

dnf_repo-FitsIf :
    (name_arch version : Bytes) (o : Option (Bytes × Bytes))
    → 0 < length name_arch
    → length name_arch ≤ 159
    → length version ≤ 63
    → FitsIf (dnf_repo name_arch version o)
unfolding dnf_repo
dnf_repo-FitsIf name_arch version none filled h k = tt
dnf_repo-FitsIf name_arch version (some (repo, rest)) filled h k =
    dnf_patch-FitsIf name_arch version repo filled h k

dnf_version-FitsIf :
    (name_arch : Bytes) (o : Option (Bytes × Bytes))
    → 0 < length name_arch
    → length name_arch ≤ 159
    → Scanned 63 o
    → FitsIf (dnf_version name_arch o)
unfolding dnf_version
dnf_version-FitsIf name_arch none filled h k = tt
dnf_version-FitsIf name_arch (some (version, rest)) filled h k =
    dnf_repo-FitsIf name_arch version (scan_word 63 rest) filled h k.1

dnf_name-FitsIf : (o : Option (Bytes × Bytes)) → Scanned 159 o → FitsIf (dnf_name o)
unfolding dnf_name
dnf_name-FitsIf none h = tt
dnf_name-FitsIf (some (name_arch, rest)) h =
    dnf_version-FitsIf name_arch (scan_word 63 rest) h.0 h.1 (scan_word-Scanned 63 rest)

pub parse_dnf_line-FitsIf : (line : Bytes) → FitsIf (parse_dnf_line line)
unfolding parse_dnf_line
parse_dnf_line-FitsIf line = dnf_name-FitsIf (scan_word 159 line) (scan_word-Scanned 159 line)
