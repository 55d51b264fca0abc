-- ===== src/LinuxPatches/Collect/Bounds.antt =====
-- agent/platform/linux/patches_linux.c: what `leo_patches_collect` keeps of the lines.
use leo_one.Prelude.{
  ◌==◌, if_both, length, take, take_nil, All, Bytes, ℕ, suc, ◌≡◌, sym, ap, Option, none, some, List,
  [],
}
use leo_one.Prelude.Int.{pos}
use leo_one.Settings.{read_lines}
use leo_one.Types.{Patch}
use leo_one.LinuxLines.{collect_lines-take, items_of, items_of-All, take-All}
use leo_one.LinuxPatches.Lines.{parse_apt_line, parse_dnf_line}
use leo_one.LinuxPatches.Lines.Sound.{Fits, FitsIf, parse_apt_line-FitsIf, parse_dnf_line-FitsIf}
use leo_one.LinuxPatches.Collect.{
  Pkgmgr, no_pkgmgr, apt, dnf, detect_pkgmgr, dnf_line, Packages, collect_from, collect_by,
  leo_patches_collect,
}

-- What the package manager offers, of all its lines.
abbrev pub lines_of : Option Bytes → List Bytes
lines_of none = []
lines_of (some text) = read_lines 511 (length text) text

abbrev pub offered_by : Packages → Pkgmgr → List Patch
offered_by m apt = items_of parse_apt_line (lines_of m.apt_list)
offered_by m dnf = items_of dnf_line (lines_of m.dnf_check)
offered_by m no_pkgmgr = []

abbrev pub offered : Packages → List Patch
offered m = offered_by m (detect_pkgmgr m.has_apt m.has_dnf)

collect_from-take :
    (parse : Bytes → Option Patch) (places : ℕ) (o : Option Bytes)
    → collect_from parse places o ≡ take places (items_of parse (lines_of o))
unfolding collect_from
collect_from-take parse places none = sym (take_nil places)
collect_from-take parse places (some text) =
    collect_lines-take parse places (read_lines 511 (length text) text)

collect_by-take :
    (m : Packages) (places : ℕ) (k : Pkgmgr) → collect_by m places k ≡ take places (offered_by m k)
unfolding collect_by
collect_by-take m places apt = collect_from-take parse_apt_line places m.apt_list
collect_by-take m places dnf = collect_from-take dnf_line places m.dnf_check
collect_by-take m places no_pkgmgr = sym (take_nil places)

dnf_line-FitsIf : (line : Bytes) → FitsIf (dnf_line line)
unfolding dnf_line
dnf_line-FitsIf line =
    if_both FitsIf (length line == 0) none (parse_dnf_line line) tt (parse_dnf_line-FitsIf line)

offered_by-Fits : (m : Packages) (k : Pkgmgr) → All Fits (offered_by m k)
offered_by-Fits m apt = items_of-All Fits parse_apt_line (lines_of m.apt_list) parse_apt_line-FitsIf
offered_by-Fits m dnf = items_of-All Fits dnf_line (lines_of m.dnf_check) dnf_line-FitsIf
offered_by-Fits m no_pkgmgr = tt

-- With room for at least one patch, the collection gives the first patches that the package manager's
-- lines name, in their order and as many as there is room for; each has a name that is not empty and
-- fits, and a title that is whole, whatever the lines say.
pub leo_patches_collect-offered :
    (m : Packages) (n : ℕ)
    → (leo_patches_collect m (pos (suc n)) ≡ some (take (suc n) (offered m)))
      × All Fits (take (suc n) (offered m))
unfolding leo_patches_collect
leo_patches_collect-offered m n =
    let k = detect_pkgmgr m.has_apt m.has_dnf in
    (
      ap some (collect_by-take m (suc n) k),
      take-All Fits (suc n) (offered_by m k) (offered_by-Fits m k),
    )
