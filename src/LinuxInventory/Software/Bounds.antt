-- ===== src/LinuxInventory/Software/Bounds.antt =====
-- agent/platform/linux/inventory_linux.c: what is kept of each package, and of how many.
use leo_one.Prelude.{
  length, length-take, take, take-append, take_nil, drop, All, Bytes, find_index, ℕ, suc, ◌≤◌, ◌≡◌,
  refl, sym, ap, Option, none, some, List, [], ◌∷◌, ◌++◌, arith,
}
use leo_one.Prelude.Int.{pos}
use leo_one.Types.{SwItem}
use leo_one.Settings.{read_lines}
use leo_one.LinuxLines.{items_of, collect_lines-take, IfSome, items_of-All, take-All}
use leo_one.LinuxPatches.Lines.Parts.{Without, find_index-here, drop-behind}
use leo_one.LinuxInventory.Software.{
  item_of, item_with, item_at, parse_package, listed, leo_inventory_collect_sw,
}

-- Every string fits its array.
abbrev pub FitsItem : SwItem → Type 0
FitsItem s =
    (length s.name ≤ 127)
    × (length s.version ≤ 63)
    × (length s.publisher ≤ 127)
    × (length s.install_path ≤ 255)

item_of-FitsItem : (name version publisher : Bytes) → FitsItem (item_of name version publisher)
item_of-FitsItem name version publisher =
    omega (arith, length-take 127 name, length-take 63 version, length-take 127 publisher)

item_with-FitsItem : (name rest : Bytes) (o : Option ℕ) → FitsItem (item_with name rest o)
unfolding item_with
item_with-FitsItem name rest none = item_of-FitsItem name rest []
item_with-FitsItem name rest (some i) = item_of-FitsItem name (take i rest) (drop (suc i) rest)

item_at-FitsItem : (line : Bytes) (o : Option ℕ) → IfSome FitsItem (item_at line o)
unfolding item_at
item_at-FitsItem line none = tt
item_at-FitsItem line (some i) =
    item_with-FitsItem (take i line) (drop (suc i) line) (find_index 9 (drop (suc i) line))

parse_package-FitsItem : (line : Bytes) → IfSome FitsItem (parse_package line)
unfolding parse_package
parse_package-FitsItem line = item_at-FitsItem line (find_index 9 line)

abbrev pub packages_of : Option Bytes → List SwItem
packages_of none = []
packages_of (some text) = items_of parse_package (read_lines 511 (length text) text)

packages_of-All : (o : Option Bytes) → All FitsItem (packages_of o)
packages_of-All none = tt
packages_of-All (some text) =
    items_of-All FitsItem parse_package (read_lines 511 (length text) text) parse_package-FitsItem

listed-take : (n : ℕ) (o : Option Bytes) → listed n o ≡ take n (packages_of o)
unfolding listed
listed-take n none = sym (take_nil n)
listed-take n (some text) = collect_lines-take parse_package n (read_lines 511 (length text) text)

-- With room for at least one package, the inventory is that of the first packages that dpkg-query lists,
-- in their order and as many as there is room for, and every string of it fits its array, whatever the
-- lines hold.
pub leo_inventory_collect_sw-listed :
    (o : Option Bytes) (n : ℕ)
    → (leo_inventory_collect_sw o (pos (suc n)) ≡ some (take (suc n) (packages_of o)))
      × All FitsItem (take (suc n) (packages_of o))
unfolding leo_inventory_collect_sw
leo_inventory_collect_sw-listed o n =
    (ap some (listed-take (suc n) o), take-All FitsItem (suc n) (packages_of o) (packages_of-All o))

-- A line of dpkg-query is taken apart into its three fields.
pub parse_package-fields :
    (name version publisher : Bytes)
    → Without 9 name
    → Without 9 version
    → parse_package (name ++ (9 ∷ (version ++ (9 ∷ publisher))))
      ≡ some (item_of name version publisher)
unfolding parse_package item_at item_with
parse_package-fields name version publisher h k =
    let rest = version ++ (9 ∷ publisher) in
    rw
      (
        find_index-here 9 name rest h,
        drop-behind 9 name rest,
        take-append name (9 ∷ rest),
        find_index-here 9 version publisher k,
        drop-behind 9 version publisher,
        take-append version (9 ∷ publisher),
      )
      refl
