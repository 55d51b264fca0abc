-- ===== src/LinuxInventory/Tests.antt =====
-- agent/platform/linux/inventory_linux.c: a machine with two sockets, and two packages.
use leo_one.Prelude.{
  ◌*◌, arith, Bytes, bytes, starts_with, find_index, ◌≡◌, refl, none, some, [], ◌∷◌, ◌++◌,
}
use leo_one.Prelude.Int.{pos}
use leo_one.Prelude.Decimal.{atoi}
use leo_one.Settings.{read_lines, c_string}
use leo_one.Enroll.Machine.{chomp}
use leo_one.LinuxInventory.{Machine, skip_blanks, leo_inventory_collect_hw}
use leo_one.LinuxInventory.Sockets.{
  lines_of, per_socket, sockets_in, leo_inventory_collect_hw-cores,
}
use leo_one.LinuxInventory.Software.{leo_inventory_collect_sw}

abbrev cpuinfo_text : Bytes
cpuinfo_text =
    bytes "physical id : 0"
    ++ (b'\n'
        ∷ (bytes "cpu cores : 4"
            ++ (b'\n' ∷ (bytes "physical id : 1" ++ (b'\n' ∷ bytes "physical id : 0")))))

abbrev two_sockets : Machine
two_sockets = record {
  processors = pos 8;
  cpuinfo = some cpuinfo_text;
  meminfo = none;
  block = some (bytes "sda" ∷ bytes "loop0" ∷ []);
  bios_version = none;
  bios_vendor = none;
  board_name = none;
  product_serial = none;
}

four_per_socket : per_socket (lines_of (some cpuinfo_text)) (pos 0) ≡ pos 4
unfolding atoi find_index starts_with read_lines c_string chomp skip_blanks
four_per_socket = refl

two_named : sockets_in (some cpuinfo_text) ≡ 2
unfolding atoi find_index starts_with read_lines c_string chomp skip_blanks
two_named = refl

leo_inventory_collect_hw-cores_example :
    (leo_inventory_collect_hw two_sockets).1.cpu_cores ≡ pos (sockets_in (some cpuinfo_text) * 4)
leo_inventory_collect_hw-cores_example =
    (leo_inventory_collect_hw-cores two_sockets).0 4 four_per_socket (omega (arith, two_named))

eight_cores : (leo_inventory_collect_hw two_sockets).1.cpu_cores ≡ pos 8
unfolding leo_inventory_collect_hw atoi find_index starts_with read_lines c_string chomp
eight_cores = refl

abbrev dpkg_text : Bytes
dpkg_text =
    bytes "vim"
    ++ (9 ∷ (bytes "9.0" ++ (9 ∷ (bytes "Debian" ++ (b'\n' ∷ (bytes "sed" ++ (9 ∷ bytes "4.8")))))))

first_package :
    leo_inventory_collect_sw (some dpkg_text) (pos 1)
    ≡ some (
        record {
          name = bytes "vim";
          version = bytes "9.0";
          publisher = bytes "Debian";
          install_path = [];
        }
        ∷ [])
unfolding leo_inventory_collect_sw find_index read_lines c_string chomp
first_package = refl
