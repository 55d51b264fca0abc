-- ===== src/LinuxPatches/Lines.antt =====
-- agent/platform/linux/patches_linux.c: a line of `apt list --upgradable` or of `dnf check-update`.
pub mod Sound
pub mod Parts
use leo_one.Prelude.{
  ltb, leb, ◌==◌, if◌then◌else◌, length, take, drop, Bytes, bytes, find_index, starts_with,
  is_space, ℕ, zero, suc, ◌+◌, ◌-◌, Bool, true, false, not, ◌&&◌, ◌||◌, Option, none, some, List,
  [], ◌∷◌, ◌++◌, map,
}
use leo_one.Prelude.Decimal.{skip_spaces}
use leo_one.Types.{Severity, important, critical, Patch, patch_id_max_len}

-- `LEO_PATCH_TITLE_MAX_LEN`
abbrev pub patch_title_max_len : ℕ
patch_title_max_len = 256

-- `tolower` in the C locale
abbrev pub to_lower : ℕ → ℕ
to_lower c = if leb b'A' c && leb c b'Z' then c + 32 else c

-- `strstr(s, word) != NULL`
pub contains : Bytes → Bytes → Bool
unfolding starts_with
contains word [] = starts_with word []
contains word (c ∷ s) =
    let later = contains word s in if starts_with word (c ∷ s) then true else later

-- `_looks_security`
unfoldable pub looks_security : Bytes → Bool
unfolding contains
looks_security word = contains (bytes "security") (map to_lower (take 127 word))

abbrev pub severity_of : Bytes → Severity
severity_of origin = if looks_security origin then critical else important

-- A text around the first of its bytes that is `c`, as `strchr` finds it.
abbrev cut_at : Bytes → Option ℕ → Option (Bytes × Bytes)
cut_at s none = none
cut_at s (some i) = some (take i s, drop (suc i) s)

abbrev pub cut : ℕ → Bytes → Option (Bytes × Bytes)
cut c s = cut_at s (find_index c s)

-- A copy into a buffer of `sz` bytes, which stays empty under a text that does not fit.
abbrev pub or_empty : ℕ → Bytes → Bytes
or_empty sz s = if ltb (length s) sz then s else []

-- `snprintf(out->title, sizeof(out->title), "%s → %s", ...)`
abbrev pub title_of : Bytes → Bytes → Bytes
title_of name version = take (patch_title_max_len - 1) (name ++ (bytes " → " ++ version))

apt_patch : Bytes → Bytes → Bytes → Option Patch
unfolding looks_security
apt_patch name pocket version =
    if length name == 0 || (leb patch_id_max_len (length name) || length version == 0)
    then none
    else some record {
      id = name;
      title = title_of name (or_empty 64 version);
      severity = severity_of (or_empty 128 pocket);
      size_bytes = 0;
    }

apt_version : Bytes → Bytes → Option (Bytes × Bytes) → Option Patch
unfolding apt_patch
apt_version name pocket none = none
apt_version name pocket (some (version, rest)) = apt_patch name pocket version

apt_pocket : Bytes → Option (Bytes × Bytes) → Option Patch
unfolding apt_version
apt_pocket name none = none
apt_pocket name (some (pocket, rest)) = apt_version name pocket (cut b' ' rest)

apt_name : Option (Bytes × Bytes) → Option Patch
unfolding apt_pocket
apt_name none = none
apt_name (some (name, rest)) = apt_pocket name (cut b' ' rest)

-- `_parse_apt_line`
unfoldable pub parse_apt_line : Bytes → Option Patch
unfolding apt_name find_index
parse_apt_line line = apt_name (cut b'/' line)

-- The characters that `%<width>s` takes, and what is left.
pub word : ℕ → Bytes → Bytes × Bytes
word zero s = ([], s)
word (suc width) [] = ([], [])
word (suc width) (c ∷ s) =
    let (w, rest) = word width s in if is_space c then ([], c ∷ s) else (c ∷ w, rest)

-- A directive `%<width>s` of sscanf: it skips spaces, and matches if a character follows them.
pub scan_word : ℕ → Bytes → Option (Bytes × Bytes)
unfolding word skip_spaces
scan_word width s =
    let found = word width (skip_spaces s) in if length found.0 == 0 then none else some found

pub has_byte : ℕ → Bytes → Bool
has_byte c [] = false
has_byte c (x ∷ s) = x == c || has_byte c s

dnf_patch : Bytes → Bytes → Bytes → Option Patch
unfolding has_byte looks_security
dnf_patch name_arch version repo =
    if not (has_byte b'.' version) && not (has_byte b'-' version)
    then none
    else some record {
      id = take (patch_id_max_len - 1) name_arch;
      title = title_of name_arch version;
      severity = severity_of repo;
      size_bytes = 0;
    }

dnf_repo : Bytes → Bytes → Option (Bytes × Bytes) → Option Patch
unfolding dnf_patch
dnf_repo name_arch version none = none
dnf_repo name_arch version (some (repo, rest)) = dnf_patch name_arch version repo

dnf_version : Bytes → Option (Bytes × Bytes) → Option Patch
unfolding dnf_repo scan_word
dnf_version name_arch none = none
dnf_version name_arch (some (version, rest)) = dnf_repo name_arch version (scan_word 63 rest)

dnf_name : Option (Bytes × Bytes) → Option Patch
unfolding dnf_version scan_word
dnf_name none = none
dnf_name (some (name_arch, rest)) = dnf_version name_arch (scan_word 63 rest)

-- `_parse_dnf_line`
unfoldable pub parse_dnf_line : Bytes → Option Patch
unfolding dnf_name scan_word
parse_dnf_line line = dnf_name (scan_word 159 line)
