-- ===== src/LinuxInventory/Sockets.antt =====
-- agent/platform/linux/inventory_linux.c: the sockets that `_read_cpuinfo` counts.
use leo_one.Prelude.{
  ltb, if◌then◌else◌, Bool-cases, if_both, length, length-append, length-take, take, take-of-le,
  take-append_split, Bytes, bytes, find_index, starts_with, ℕ, zero, suc, ◌-◌, min, ◌≤◌, ◌<◌, ◌≡◌,
  ◌==◌, ◌||◌, ◌*◌, ◌^◌, refl, sym, ap, ap₂, ◌∙◌, inl, inr, Bool, true, false, ◌&&◌, Option, none,
  some, List, [], ◌∷◌, ◌++◌, append-nil, arith,
}
use leo_one.Prelude.Int.{ℤ, pos, negsuc}
use leo_one.Prelude.Decimal.{atoi}
use leo_one.Settings.{read_lines, c_string}
use leo_one.LinuxInventory.{
  Cpu, no_cpu, known, add_socket, is_none, cpu_field, value_at, cpu_line_at, cpu_line, cpu_lines,
  read_cpuinfo, cores_of, Machine, leo_inventory_collect_hw,
}

-- A number is one of those that were met before.
abbrev same_id : ℤ → ℤ → Bool
same_id (pos a) (pos b) = a == b
same_id (negsuc a) (negsuc b) = a == b
same_id _ _ = false

abbrev met : ℤ → List ℤ → Bool
met id [] = false
met id (x ∷ ids) = same_id x id || met id ids

known-met : (id : ℤ) (ids : List ℤ) → known id ids ≡ met id ids
unfolding known
known-met id [] = refl
known-met (pos a) (pos b ∷ ids) = ground (arith, known-met (pos a) ids)
known-met (pos a) (negsuc b ∷ ids) = ground (arith, known-met (pos a) ids)
known-met (negsuc a) (pos b ∷ ids) = ground (arith, known-met (negsuc a) ids)
known-met (negsuc a) (negsuc b ∷ ids) = ground (arith, known-met (negsuc a) ids)

-- The numbers that were met, each once, in the order in which they were met.
abbrev pub add_new : ℤ → List ℤ → List ℤ
add_new id ids = if met id ids then ids else ids ++ id ∷ []

abbrev pub add_if : Option ℤ → List ℤ → List ℤ
add_if none ids = ids
add_if (some id) ids = add_new id ids

-- The socket that a line names.
abbrev pub id_at : Bytes → Option ℕ → Option ℤ
id_at line none = none
id_at line (some i) =
    if starts_with (bytes "physical id") line then some (atoi (value_at line i)) else none

abbrev pub id_of : Bytes → Option ℤ
id_of line = id_at line (find_index b':' line)

abbrev pub distinct_ids : List Bytes → List ℤ → List ℤ
distinct_ids [] ids = ids
distinct_ids (line ∷ lines) ids = distinct_ids lines (add_if (id_of (c_string line)) ids)

known-take : (n : ℕ) (id : ℤ) (ids : List ℤ) → known id (take n ids) ≡ true → known id ids ≡ true
unfolding known
known-take zero id ids h = cc
known-take (suc n) id [] h = cc
known-take (suc n) id (x ∷ ids) h = ground (arith, known-take n id ids)

take-add : (n : ℕ) (id : ℤ) (ids : List ℤ) → n ≤ length ids → take n (ids ++ id ∷ []) ≡ take n ids
take-add n id ids h =
    let none_left : n - length (take n ids) ≡ 0 = omega (arith, length-take n ids) in
    take-append_split n ids (id ∷ [])
    ∙ ap (λ k. take n ids ++ take k (id ∷ [])) none_left
    ∙ append-nil (take n ids)

add_socket-take : (id : ℤ) (ids : List ℤ) → add_socket id (take 16 ids) ≡ take 16 (add_new id ids)
unfolding add_socket
add_socket-take id ids = elim (Bool-cases (known id (take 16 ids))) [
  | inl seen ↦
      let again : met id ids ≡ true = sym (known-met id ids) ∙ known-take 16 id ids seen in
      rw (seen, again) refl
  | inr new ↦ elim (Bool-cases (ltb (length ids) 16)) [
    | inl room ↦
        let short : length ids < 16 = ground (arith, room) in
        let whole : take 16 ids ≡ ids = take-of-le 16 ids (omega (arith, short)) in
        let unknown : known id ids ≡ false = rw whole at new in
        let fresh : met id ids ≡ false = sym (known-met id ids) ∙ unknown in
        rw (whole, fresh, room)
          (sym (take-of-le 16 (ids ++ id ∷ []) (omega (arith, short, length-append ids (id ∷ [])))))
    | inr full ↦
        let long : 16 ≤ length ids = ground (arith, full) in
        let no_room : ltb (length (take 16 ids)) 16 ≡ false =
          ground (arith, length-take 16 ids, long) in
        rw (new, no_room) (sym (if_either (met id ids) ids (take-add 16 id ids long)))
  ]
]
  where
    if_either :
        (b : Bool) (xs : List ℤ)
        → take 16 (xs ++ id ∷ []) ≡ take 16 xs
        → take 16 (if b then xs else xs ++ id ∷ []) ≡ take 16 xs
    if_either true xs h = refl
    if_either false xs h = h

and_false : (b : Bool) → (b && false) ≡ false
and_false true = refl
and_false false = refl

no_model :
    (line : Bytes)
    → starts_with (bytes "physical id") line ≡ true
    → starts_with (bytes "model name") line ≡ false
unfolding starts_with
no_model [] h = refl
no_model (c ∷ line) h = ground arith

cpu_line-seen :
    (line : Bytes) (o : Option ℕ) (c : Cpu) (ids : List ℤ)
    → c.seen_physical_ids ≡ take 16 ids
    → (cpu_line_at line o c).seen_physical_ids ≡ take 16 (add_if (id_at line o) ids)
unfolding cpu_line_at cpu_field
cpu_line-seen line none c ids h = h
cpu_line-seen line (some i) c ids h = elim (Bool-cases (starts_with (bytes "physical id") line)) [
  | inl socket ↦
      let id = atoi (value_at line i) in
      rw (socket, no_model line socket, and_false (is_none c.model))
        (ap (add_socket id) h ∙ add_socket-take id ids)
  | inr other ↦ rw other (
      if_both Keeps (is_none c.model && starts_with (bytes "model name") line)
        (record c { model = some (take 127 (value_at line i)) })
        (if starts_with (bytes "cpu cores") line
          then record c { cores_per_socket = atoi (value_at line i) }
          else c)
        h
        (if_both Keeps (starts_with (bytes "cpu cores") line)
          (record c { cores_per_socket = atoi (value_at line i) }) c h h))
]
  where
    Keeps : Cpu → Type 0
    Keeps d = d.seen_physical_ids ≡ take 16 ids

cpu_lines-seen :
    (lines : List Bytes) (c : Cpu) (ids : List ℤ)
    → c.seen_physical_ids ≡ take 16 ids
    → (cpu_lines lines c).seen_physical_ids ≡ take 16 (distinct_ids lines ids)
unfolding cpu_lines cpu_line
cpu_lines-seen [] c ids h = h
cpu_lines-seen (line ∷ lines) c ids h =
    cpu_lines-seen lines (cpu_line (c_string line) c) (add_if (id_of (c_string line)) ids)
      (cpu_line-seen (c_string line) (find_index b':' (c_string line)) c ids h)

-- The lines of /proc/cpuinfo, in pieces of at most 255 bytes.
abbrev pub lines_of : Option Bytes → List Bytes
lines_of none = []
lines_of (some text) = read_lines 255 (length text) text

read_cpuinfo-seen :
    (o : Option Bytes) → (read_cpuinfo o).seen_physical_ids ≡ take 16 (distinct_ids (lines_of o) [])
unfolding read_cpuinfo
read_cpuinfo-seen none = refl
read_cpuinfo-seen (some text) = cpu_lines-seen (read_lines 255 (length text) text) no_cpu [] refl

-- The number of cores that the last line which gives one gives to a socket.
abbrev pub per_socket_at : Bytes → Option ℕ → ℤ → ℤ
per_socket_at line none last = last
per_socket_at line (some i) last =
    if starts_with (bytes "cpu cores") line then atoi (value_at line i) else last

abbrev pub per_socket : List Bytes → ℤ → ℤ
per_socket [] last = last
per_socket (line ∷ lines) last =
    per_socket lines (per_socket_at (c_string line) (find_index b':' (c_string line)) last)

-- The beginnings exclude one another.
no_cores :
    (line : Bytes)
    → starts_with (bytes "cpu cores") line ≡ true
    → (starts_with (bytes "model name") line ≡ false)
      × (starts_with (bytes "physical id") line ≡ false)
unfolding starts_with
no_cores [] h = (refl, refl)
no_cores (c ∷ line) h = (ground arith, ground arith)

cpu_line-cores :
    (line : Bytes) (o : Option ℕ) (c : Cpu)
    → (cpu_line_at line o c).cores_per_socket ≡ per_socket_at line o c.cores_per_socket
unfolding cpu_line_at cpu_field
cpu_line-cores line none c = refl
cpu_line-cores line (some i) c = elim (Bool-cases (starts_with (bytes "cpu cores") line)) [
  | inl cores ↦
      rw (cores, (no_cores line cores).0, (no_cores line cores).1, and_false (is_none c.model)) refl
  | inr other ↦ rw other (
      if_both Keeps (is_none c.model && starts_with (bytes "model name") line)
        (record c { model = some (take 127 (value_at line i)) }) _ refl
        (if_both Keeps (starts_with (bytes "physical id") line)
          (record c { seen_physical_ids = add_socket (atoi (value_at line i)) c.seen_physical_ids })
          c refl refl))
]
  where
    Keeps : Cpu → Type 0
    Keeps d = d.cores_per_socket ≡ c.cores_per_socket

cpu_lines-cores :
    (lines : List Bytes) (c : Cpu)
    → (cpu_lines lines c).cores_per_socket ≡ per_socket lines c.cores_per_socket
unfolding cpu_lines cpu_line
cpu_lines-cores [] c = refl
cpu_lines-cores (line ∷ lines) c =
    cpu_lines-cores lines (cpu_line (c_string line) c)
    ∙ ap (per_socket lines) (cpu_line-cores (c_string line) (find_index b':' (c_string line)) c)

read_cpuinfo-cores :
    (o : Option Bytes) → (read_cpuinfo o).cores_per_socket ≡ per_socket (lines_of o) (pos 0)
unfolding read_cpuinfo
read_cpuinfo-cores none = refl
read_cpuinfo-cores (some text) = cpu_lines-cores (read_lines 255 (length text) text) no_cpu

-- The number of different sockets that /proc/cpuinfo names, 16 at most.
abbrev pub sockets_in : Option Bytes → ℕ
sockets_in o = min 16 (length (distinct_ids (lines_of o) []))

collected-cores :
    (m : Machine)
    → (leo_inventory_collect_hw m).1.cpu_cores
      ≡ cores_of (sockets_in m.cpuinfo) (per_socket (lines_of m.cpuinfo) (pos 0))
unfolding leo_inventory_collect_hw
collected-cores m =
    ap₂ cores_of
      (ap length (read_cpuinfo-seen m.cpuinfo)
        ∙ length-take 16 (distinct_ids (lines_of m.cpuinfo) []))
      (read_cpuinfo-cores m.cpuinfo)

-- The number of cores is that of the different sockets that /proc/cpuinfo names, each counted once
-- however often it is named and 16 at most, times the number of cores that its last line which gives one
-- gives to a socket, if that is not negative and the product is an `int`; it is 0 where that number is
-- negative.
pub leo_inventory_collect_hw-cores :
    (m : Machine)
    → ((n : ℕ)
        → per_socket (lines_of m.cpuinfo) (pos 0) ≡ pos n
        → sockets_in m.cpuinfo * n < 2 ^ 31
        → (leo_inventory_collect_hw m).1.cpu_cores ≡ pos (sockets_in m.cpuinfo * n))
      × ((n : ℕ)
          → per_socket (lines_of m.cpuinfo) (pos 0) ≡ negsuc n
          → (leo_inventory_collect_hw m).1.cpu_cores ≡ pos 0)
unfolding cores_of
leo_inventory_collect_hw-cores m = (
  (λ n given fits.
      collected-cores m ∙ ap (cores_of (sockets_in m.cpuinfo)) given ∙ ground (arith, fits)),
  (λ n given. collected-cores m ∙ ap (cores_of (sockets_in m.cpuinfo)) given),
)
