-- ===== src/Enroll/Machine/Bounds.antt =====
-- agent/src/enroll.c: what is found out about the machine fits its fields.
use leo_one.Prelude.{
  ◌==◌, Bool-cases, length, drop, length-take, Bytes, bytes, starts_with, ◌≤◌, inl, inr, Option,
  none, some, List, [], ◌∷◌, arith,
}
use leo_one.Settings.{fgets, read_lines, c_string}
use leo_one.Enroll.Machine.{
  detect_hostname, chomp, unquote, pretty_name, release_or_unknown, version_or_release,
  detect_os_version, Processor, x86_64, aarch64, other_processor, detect_arch, machine_id, first_of,
  detect_hardware_id,
}
use leo_one.Settings.Lines.{fgets-le}

pub length-detect_hostname : (o : Option Bytes) → length (detect_hostname o) ≤ 255
unfolding detect_hostname
length-detect_hostname none = omega arith
length-detect_hostname (some name) = omega (arith, length-take 255 name)

length-release_or_unknown : (o : Option Bytes) → length (release_or_unknown o) ≤ 127
unfolding release_or_unknown
length-release_or_unknown none = omega arith
length-release_or_unknown (some release) = omega (arith, length-take 127 release)

-- The value of PRETTY_NAME is cut to its field.
abbrev IsShort : Option Bytes → Type 0
IsShort none = Unit
IsShort (some s) = length s ≤ 127

pretty_name-IsShort : (lines : List Bytes) → IsShort (pretty_name lines)
unfolding pretty_name
pretty_name-IsShort [] = tt
pretty_name-IsShort (line ∷ lines) =
    elim (Bool-cases (starts_with (bytes "PRETTY_NAME=") (c_string line))) [
      | inl named ↦
          rw named (omega (arith, length-take 127 (unquote (chomp (drop 12 (c_string line))))))
      | inr other ↦ rw other (pretty_name-IsShort lines)
    ]

length-version_or_release :
    (v uname : Option Bytes) → IsShort v → length (version_or_release v uname) ≤ 127
unfolding version_or_release
length-version_or_release none uname h = length-release_or_unknown uname
length-version_or_release (some v) uname h = h

pub length-detect_os_version : (o uname : Option Bytes) → length (detect_os_version o uname) ≤ 127
unfolding detect_os_version
length-detect_os_version none uname = length-release_or_unknown uname
length-detect_os_version (some text) uname =
    length-version_or_release (pretty_name (read_lines 255 (length text) text)) uname
      (pretty_name-IsShort (read_lines 255 (length text) text))

pub length-detect_arch : (p : Processor) → length (detect_arch p) ≤ 15
unfolding detect_arch
length-detect_arch x86_64 = omega arith
length-detect_arch aarch64 = omega arith
length-detect_arch other_processor = omega arith

length-chomp : (s : Bytes) → length (chomp s) ≤ length s
unfolding chomp
length-chomp [] = omega arith
length-chomp (c ∷ s) = ground (arith, length-chomp s)

length-c_string : (s : Bytes) → length (c_string s) ≤ length s
unfolding c_string
length-c_string [] = omega arith
length-c_string (c ∷ s) = ground (arith, length-c_string s)

-- An identifier fits its field.
abbrev pub IsId : Option Bytes → Type 0
IsId none = Unit
IsId (some id) = length id ≤ 36

machine_id-IsId : (file : Option Bytes) → IsId (machine_id file)
unfolding machine_id
machine_id-IsId none = tt
machine_id-IsId (some []) = tt
machine_id-IsId (some (c ∷ s)) =
    let line = (fgets 36 (c ∷ s)).0 in
    elim (Bool-cases (length (chomp (c_string line)) == 0)) [
      | inl nothing ↦ rw nothing tt
      | inr something ↦
          rw something
            (omega (arith, length-chomp (c_string line), length-c_string line, fgets-le 36 (c ∷ s)))
    ]

first_of-IsId : (a b : Option Bytes) → IsId a → IsId b → IsId (first_of a b)
unfolding first_of
first_of-IsId none b h k = k
first_of-IsId (some id) b h k = h

pub detect_hardware_id-IsId : (files : List (Option Bytes)) → IsId (detect_hardware_id files)
unfolding detect_hardware_id
detect_hardware_id-IsId [] = tt
detect_hardware_id-IsId (file ∷ files) =
    first_of-IsId (machine_id file) (detect_hardware_id files) (machine_id-IsId file)
      (detect_hardware_id-IsId files)
