-- ===== src/LinuxInventory.antt =====
-- agent/platform/linux/inventory_linux.c: what the machine is made of, and what is installed on it.
pub mod Sockets
pub mod Software
mod Tests
use leo_one.Prelude.{
  ltb, leb, ◌==◌, if◌then◌else◌, length, take, drop, Bytes, bytes, find_index, starts_with, ℕ, zero,
  suc, ◌+◌, ◌-◌, ◌*◌, ◌%◌, ◌^◌, Bool, true, false, not, ◌&&◌, ◌||◌, Option, none, some, List, [],
  ◌∷◌, ◌++◌,
}
use leo_one.Prelude.Int.{ℤ, pos, negsuc, of_bits32}
use leo_one.Prelude.Decimal.{atoi}
use leo_one.Types.{HwInventory, LeoError, ok}
use leo_one.Settings.{fgets, read_lines, c_string}
use leo_one.Enroll.Machine.{chomp}

-- `LEO_INVENTORY_MAX_SOCKETS`
abbrev pub inventory_max_sockets : ℕ
inventory_max_sockets = 16

-- What `_read_cpuinfo` knows of the processors: the model, the sockets seen, and the last "cpu cores".
pub record Cpu : Type 0 where
  pub model : Option Bytes
  pub seen_physical_ids : List ℤ
  pub cores_per_socket : ℤ

abbrev pub no_cpu : Cpu
no_cpu = record { model = none; seen_physical_ids = []; cores_per_socket = pos 0 }

pub int_eq : ℤ → ℤ → Bool
int_eq (pos a) (pos b) = a == b
int_eq (negsuc a) (negsuc b) = a == b
int_eq _ _ = false

-- `known`
pub known : ℤ → List ℤ → Bool
unfolding int_eq
known id [] = false
known id (x ∷ ids) = int_eq x id || known id ids

pub add_socket : ℤ → List ℤ → List ℤ
unfolding known
add_socket id ids =
    if not (known id ids) && ltb (length ids) inventory_max_sockets then ids ++ id ∷ [] else ids

pub is_none : Option Bytes → Bool
is_none none = true
is_none (some b) = false

pub cpu_field : Bytes → Bytes → Cpu → Cpu
unfolding add_socket is_none
cpu_field line value c =
    if is_none c.model && starts_with (bytes "model name") line
    then record c { model = some (take 127 value) }
    else if starts_with (bytes "physical id") line
    then record c { seen_physical_ids = add_socket (atoi value) c.seen_physical_ids }
    else if starts_with (bytes "cpu cores") line
    then record c { cores_per_socket = atoi value }
    else c

unfoldable pub skip_blanks : Bytes → Bytes
skip_blanks [] = []
skip_blanks (c ∷ s) = if c == b' ' || c == 9 then skip_blanks s else c ∷ s

abbrev pub value_at : Bytes → ℕ → Bytes
value_at line i = chomp (skip_blanks (drop (suc i) line))

pub cpu_line_at : Bytes → Option ℕ → Cpu → Cpu
unfolding cpu_field skip_blanks
cpu_line_at line none c = c
cpu_line_at line (some i) c = cpu_field line (value_at line i) c

-- A turn of the loop over /proc/cpuinfo.
pub cpu_line : Bytes → Cpu → Cpu
unfolding cpu_line_at
cpu_line line c = cpu_line_at line (find_index b':' line) c

pub cpu_lines : List Bytes → Cpu → Cpu
unfolding cpu_line
cpu_lines [] c = c
cpu_lines (line ∷ lines) c = cpu_lines lines (cpu_line (c_string line) c)

pub read_cpuinfo : Option Bytes → Cpu
unfolding cpu_lines
read_cpuinfo none = no_cpu
read_cpuinfo (some text) = cpu_lines (read_lines 255 (length text) text) no_cpu

-- `cpu_cores`, which stays 0 where no socket or no number of cores is known.
-- A product of two `int`, which wraps.
pub cores_of : ℕ → ℤ → ℤ
cores_of sockets (pos n) = of_bits32 (sockets * n % 2 ^ 32)
cores_of sockets (negsuc n) = pos 0

pub threads_of : ℤ → ℤ
threads_of (pos n) = pos n
threads_of (negsuc n) = pos 0

-- `_read_ram_total`, of what sscanf reads in each line of /proc/meminfo.
pub read_ram_total : List (Option ℕ) → ℕ
read_ram_total [] = 0
read_ram_total (none ∷ lines) = read_ram_total lines
read_ram_total (some kb ∷ lines) = kb * 1024 % 2 ^ 64

pub is_disk : Bytes → Bool
is_disk name = not (
    starts_with (bytes ".") name
    || (starts_with (bytes "loop") name
        || (starts_with (bytes "ram") name || starts_with (bytes "sr") name)))

-- `_read_disk_count`, of the names in /sys/block.
pub read_disk_count : List Bytes → ℕ
unfolding is_disk
read_disk_count [] = 0
read_disk_count (name ∷ names) =
    let rest = read_disk_count names in if is_disk name then rest + 1 else rest

-- `_read_dmi_field`, of the file's bytes, if it can be opened, into `out_sz` bytes that are 0.
pub read_dmi_field : Option Bytes → ℕ → Bytes
read_dmi_field none out_sz = []
read_dmi_field (some text) out_sz = chomp (c_string (fgets (out_sz - 1) text).0)

or_nothing : {A : Type 0} → Option (List A) → List A
or_nothing none = []
or_nothing (some items) = items

model_of : Option Bytes → Bytes
model_of none = []
model_of (some m) = m

-- The machine: what sysconf says, and what the files and directories that can be opened hold.
pub record Machine : Type 0 where
  pub processors : ℤ
  pub cpuinfo : Option Bytes
  pub meminfo : Option (List (Option ℕ))
  pub block : Option (List Bytes)
  pub bios_version : Option Bytes
  pub bios_vendor : Option Bytes
  pub board_name : Option Bytes
  pub product_serial : Option Bytes

-- `leo_inventory_collect_hw`
unfoldable pub leo_inventory_collect_hw : Machine → LeoError × HwInventory
unfolding read_cpuinfo cores_of threads_of read_ram_total read_disk_count read_dmi_field or_nothing
    model_of
leo_inventory_collect_hw m =
    let cpu = read_cpuinfo m.cpuinfo in
    (
      ok,
      record {
        cpu_model = model_of cpu.model;
        cpu_cores = cores_of (length cpu.seen_physical_ids) cpu.cores_per_socket;
        cpu_threads = threads_of m.processors;
        hw_ram_total_bytes = read_ram_total (or_nothing m.meminfo);
        disk_count = pos (read_disk_count (or_nothing m.block));
        bios_version = read_dmi_field m.bios_version 64;
        bios_vendor = read_dmi_field m.bios_vendor 64;
        motherboard = read_dmi_field m.board_name 128;
        serial_number = read_dmi_field m.product_serial 128;
      },
    )
