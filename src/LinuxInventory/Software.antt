-- ===== src/LinuxInventory/Software.antt =====
-- agent/platform/linux/inventory_linux.c: `leo_inventory_collect_sw`, the packages that dpkg-query
-- lists.
pub mod Bounds
use leo_one.Prelude.{
  length, take, drop, Bytes, find_index, ℕ, zero, suc, Option, none, some, List, [], ◌∷◌,
}
use leo_one.Prelude.Int.{ℤ, pos, negsuc}
use leo_one.Types.{SwItem}
use leo_one.Settings.{read_lines}
use leo_one.LinuxLines.{collect_lines}

abbrev pub item_of : Bytes → Bytes → Bytes → SwItem
item_of name version publisher = record {
  name = take 127 name;
  version = take 63 version;
  publisher = take 127 publisher;
  install_path = [];
}

-- What stands behind the package's name: its version, and its maintainer behind another tab.
pub item_with : Bytes → Bytes → Option ℕ → SwItem
item_with name rest none = item_of name rest []
item_with name rest (some ver_end) = item_of name (take ver_end rest) (drop (suc ver_end) rest)

pub item_at : Bytes → Option ℕ → Option SwItem
unfolding item_with
item_at line none = none
item_at line (some pkg_end) =
    let rest = drop (suc pkg_end) line in
    some (item_with (take pkg_end line) rest (find_index 9 rest))

-- The loop's body: a line without a tab is skipped.
unfoldable pub parse_package : Bytes → Option SwItem
unfolding item_at find_index
parse_package line = item_at line (find_index 9 line)

pub listed : ℕ → Option Bytes → List SwItem
unfolding parse_package collect_lines read_lines
listed max_items none = []
listed max_items (some text) =
    collect_lines parse_package max_items (read_lines 511 (length text) text)

-- `leo_inventory_collect_sw`, of what dpkg-query prints, if popen starts it: none is -1.
unfoldable pub leo_inventory_collect_sw : Option Bytes → ℤ → Option (List SwItem)
unfolding listed
leo_inventory_collect_sw text (pos zero) = none
leo_inventory_collect_sw text (pos (suc n)) = some (listed (suc n) text)
leo_inventory_collect_sw text (negsuc n) = none
