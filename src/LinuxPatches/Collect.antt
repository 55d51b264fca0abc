-- ===== src/LinuxPatches/Collect.antt =====
-- agent/platform/linux/patches_linux.c: `leo_patches_collect`.
pub mod Bounds
use leo_one.Prelude.{
  ◌==◌, if◌then◌else◌, length, take, Bytes, ℕ, zero, suc, Bool, true, false, Option, none, some,
  List, [], ◌∷◌,
}
use leo_one.Prelude.Int.{ℤ, pos, negsuc}
use leo_one.Settings.{read_lines}
use leo_one.LinuxLines.{collect_lines}
use leo_one.Types.{Patch}
use leo_one.LinuxPatches.Lines.{parse_apt_line, parse_dnf_line}

-- `_pkgmgr_t`
pub data Pkgmgr : Type 0 where
  no_pkgmgr apt dnf : Pkgmgr

-- `_detect_pkgmgr`, of what access says of both programs.
pub detect_pkgmgr : Bool → Bool → Pkgmgr
detect_pkgmgr apt_get dnf_there = if apt_get then apt else if dnf_there then dnf else no_pkgmgr

-- The loop of `_collect_dnf` goes on at an empty line.
pub dnf_line : Bytes → Option Patch
dnf_line line = if length line == 0 then none else parse_dnf_line line

-- The machine: whether each package manager is there, and what its program prints, if popen starts it.
pub record Packages : Type 0 where
  pub has_apt : Bool
  pub has_dnf : Bool
  pub apt_list : Option Bytes
  pub dnf_check : Option Bytes

-- `_collect_apt` and `_collect_dnf`, with lines of up to 511 bytes.
pub collect_from : (Bytes → Option Patch) → ℕ → Option Bytes → List Patch
unfolding collect_lines read_lines
collect_from parse max_items none = []
collect_from parse max_items (some text) =
    collect_lines parse max_items (read_lines 511 (length text) text)

pub collect_by : Packages → ℕ → Pkgmgr → List Patch
unfolding collect_from dnf_line
collect_by m max_items apt = collect_from parse_apt_line max_items m.apt_list
collect_by m max_items dnf = collect_from dnf_line max_items m.dnf_check
collect_by m max_items no_pkgmgr = []

-- `leo_patches_collect`: none is -1.
unfoldable pub leo_patches_collect : Packages → ℤ → Option (List Patch)
unfolding collect_by detect_pkgmgr
leo_patches_collect m (pos zero) = none
leo_patches_collect m (pos (suc n)) =
    some (collect_by m (suc n) (detect_pkgmgr m.has_apt m.has_dnf))
leo_patches_collect m (negsuc n) = none
