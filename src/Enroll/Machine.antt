-- ===== src/Enroll/Machine.antt =====
-- agent/src/enroll.c: what the agent finds out about its machine, on Linux.
pub mod Bounds
use leo_one.Prelude.{
  leb, ◌==◌, if◌then◌else◌, length, take, drop, Bytes, bytes, starts_with, ℕ, ◌-◌, Bool, false,
  ◌&&◌, ◌||◌, Option, none, some, List, [], ◌∷◌,
}
use leo_one.Settings.{fgets, read_lines, c_string}

-- `_detect_hostname`, on what gethostname gives.
unfoldable pub detect_hostname : Option Bytes → Bytes
detect_hostname none = bytes "unknown-host"
detect_hostname (some name) = take 255 name

-- The loop that cuts `\n` and `\r` off the end.
unfoldable pub chomp : Bytes → Bytes
chomp [] = []
chomp (c ∷ s) =
    let rest = chomp s in if (c == b'\n' || c == b'\r') && length rest == 0 then [] else c ∷ rest

pub last_is : ℕ → Bytes → Bool
last_is c [] = false
last_is c (x ∷ []) = x == c
last_is c (x ∷ y ∷ s) = last_is c (y ∷ s)

pub first_is : ℕ → Bytes → Bool
first_is c [] = false
first_is c (x ∷ s) = x == c

-- A pair of quotes around the value is left out.
pub unquote : Bytes → Bytes
unfolding first_is last_is
unquote val =
    if leb 2 (length val) && first_is b'"' val && last_is b'"' val
    then take (length val - 2) (drop 1 val)
    else val

-- The loop over /etc/os-release: the value of its first PRETTY_NAME.
pub pretty_name : List Bytes → Option Bytes
unfolding unquote chomp
pretty_name [] = none
pretty_name (line ∷ lines) =
    let rest = pretty_name lines in
    if starts_with (bytes "PRETTY_NAME=") (c_string line)
    then some (take 127 (unquote (chomp (drop 12 (c_string line)))))
    else rest

-- uname, or nothing.
pub release_or_unknown : Option Bytes → Bytes
release_or_unknown none = bytes "unknown"
release_or_unknown (some release) = take 127 release

pub version_or_release : Option Bytes → Option Bytes → Bytes
unfolding release_or_unknown
version_or_release none uname = release_or_unknown uname
version_or_release (some version) uname = version

-- `_detect_os_version`, on the content of /etc/os-release and on what uname gives.
unfoldable pub detect_os_version : Option Bytes → Option Bytes → Bytes
unfolding version_or_release pretty_name
detect_os_version none uname = release_or_unknown uname
detect_os_version (some text) uname =
    version_or_release (pretty_name (read_lines 255 (length text) text)) uname

-- The processor that the program is compiled for.
pub data Processor : Type 0 where
  x86_64 aarch64 other_processor : Processor

-- `_detect_arch`
unfoldable pub detect_arch : Processor → Bytes
detect_arch x86_64 = bytes "amd64"
detect_arch aarch64 = bytes "arm64"
detect_arch other_processor = bytes "unknown"

-- A file of the loop: its first line, or none if there is nothing in it.
pub machine_id : Option Bytes → Option Bytes
unfolding chomp
machine_id none = none
machine_id (some []) = none
machine_id (some (c ∷ s)) =
    let id = chomp (c_string (fgets 36 (c ∷ s)).0) in if length id == 0 then none else some id

-- The first identifier that is found.
pub first_of : Option Bytes → Option Bytes → Option Bytes
first_of none rest = rest
first_of (some id) rest = some id

-- `_detect_hardware_id`, on the contents of the two files, in order.
unfoldable pub detect_hardware_id : List (Option Bytes) → Option Bytes
unfolding machine_id first_of
detect_hardware_id [] = none
detect_hardware_id (file ∷ files) = first_of (machine_id file) (detect_hardware_id files)
