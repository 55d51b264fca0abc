-- ===== src/LinuxMetrics/Totals.antt =====
-- agent/platform/linux/metrics_linux.c: the sums over disks and network interfaces.
use native.Mathlib.Nat.{mul-le-mul_left}
use leo_one.Prelude.{
  if◌then◌else◌, Bool-cases, All, Bytes, bytes, str_eq, ℕ, ◌+◌, ◌-◌, ◌*◌, ◌%◌, ◌^◌, ◌≤◌, ◌<◌, ◌≡◌,
  refl, inl, inr, Bool, false, ◌||◌, Option, none, some, List, [], ◌∷◌, arith,
}

-- A line of /proc/mounts: the file system's type, and what statvfs says of the place, if it does: the
-- size of a block, the number of blocks, and how many are free.
pub record Mount : Type 0 where
  pub fstype : Bytes
  pub stat : Option (ℕ × ℕ × ℕ)

-- `IGNORE_FS`
abbrev pub ignore_fs : List Bytes
ignore_fs =
    bytes "proc"
    ∷ bytes "sysfs"
    ∷ bytes "devtmpfs"
    ∷ bytes "tmpfs"
    ∷ bytes "devpts"
    ∷ bytes "securityfs"
    ∷ bytes "cgroup"
    ∷ bytes "cgroup2"
    ∷ bytes "pstore"
    ∷ bytes "bpf"
    ∷ bytes "tracefs"
    ∷ bytes "debugfs"
    ∷ bytes "fusectl"
    ∷ bytes "hugetlbfs"
    ∷ bytes "mqueue"
    ∷ bytes "overlay"
    ∷ bytes "squashfs"
    ∷ []

pub is_ignored : Bytes → List Bytes → Bool
is_ignored fs [] = false
is_ignored fs (name ∷ names) = str_eq fs name || is_ignored fs names

add_stat : ℕ × ℕ → Option (ℕ × ℕ × ℕ) → ℕ × ℕ
add_stat (total, used) none = (total, used)
add_stat (total, used) (some (blk, blocks, bfree)) = (
  (total + blk * blocks) % 2 ^ 64,
  (used + blk * ((blocks + (2 ^ 64 - bfree)) % 2 ^ 64)) % 2 ^ 64,
)

add_mount : ℕ × ℕ → Mount → ℕ × ℕ
unfolding add_stat is_ignored
add_mount sums m = if is_ignored m.fstype ignore_fs then sums else add_stat sums m.stat

add_mounts : ℕ × ℕ → List Mount → ℕ × ℕ
unfolding add_mount
add_mounts sums [] = sums
add_mounts sums (m ∷ mounts) = add_mounts (add_mount sums m) mounts

-- `_read_disk_usage`: the bytes of all disks, and those in use
pub read_disk_usage : Option (List Mount) → ℕ × ℕ
unfolding add_mounts
read_disk_usage none = (0, 0)
read_disk_usage (some mounts) = add_mounts (0, 0) mounts

-- A line of /proc/net/dev that has its ten fields: the interface, the bytes in and the bytes out.
pub record Interface : Type 0 where
  pub iface : Bytes
  pub rx_bytes : ℕ
  pub tx_bytes : ℕ

add_interfaces : ℕ × ℕ → List Interface → ℕ × ℕ
add_interfaces sums [] = sums
add_interfaces (bytes_in, bytes_out) (i ∷ rest) =
    let now : ℕ × ℕ =
      if str_eq i.iface (bytes "lo")
      then (bytes_in, bytes_out)
      else ((bytes_in + i.rx_bytes) % 2 ^ 64, (bytes_out + i.tx_bytes) % 2 ^ 64) in
    add_interfaces now rest

-- `_read_net_stats`, on the lines behind the two of the heading
pub read_net_stats : Option (List Interface) → ℕ × ℕ
unfolding add_interfaces
read_net_stats none = (0, 0)
read_net_stats (some rest) = add_interfaces (0, 0) rest

stat_bytes : Option (ℕ × ℕ × ℕ) → ℕ
stat_bytes none = 0
stat_bytes (some (blk, blocks, bfree)) = blk * blocks

mount_bytes : Mount → ℕ
unfolding stat_bytes is_ignored
mount_bytes m = if is_ignored m.fstype ignore_fs then 0 else stat_bytes m.stat

-- The bytes of the disks that are not ignored.
unfoldable pub whole_of : List Mount → ℕ
unfolding mount_bytes
whole_of [] = 0
whole_of (m ∷ mounts) = mount_bytes m + whole_of mounts

abbrev IsStat : Option (ℕ × ℕ × ℕ) → Type 0
IsStat none = Unit
IsStat (some (blk, blocks, bfree)) = (bfree ≤ blocks) × (blocks < 2 ^ 64)

-- No disk has more free blocks than blocks.
abbrev pub IsMounted : Mount → Type 0
IsMounted m = IsStat m.stat

-- What has been summed up is `whole` more than `before`, and what is in use is part of it.
abbrev Adds : ℕ → ℕ × ℕ → ℕ → Type 0
Adds before sums whole = (sums.0 ≡ before + whole) × (sums.1 ≤ sums.0)

free_blocks :
    (blocks bfree : ℕ)
    → bfree ≤ blocks
    → blocks < 2 ^ 64
    → (blocks + (2 ^ 64 - bfree)) % 2 ^ 64 ≤ blocks
free_blocks blocks bfree h k = omega (arith, h, k)

add_stat-Adds :
    (total used : ℕ) (s : Option (ℕ × ℕ × ℕ))
    → used ≤ total
    → IsStat s
    → total + stat_bytes s < 2 ^ 64
    → Adds total (add_stat (total, used) s) (stat_bytes s)
unfolding add_stat stat_bytes
add_stat-Adds total used none h k b = (omega arith, h)
add_stat-Adds total used (some (blk, blocks, bfree)) h k b =
    let part : blk * ((blocks + (2 ^ 64 - bfree)) % 2 ^ 64) ≤ blk * blocks =
      mul-le-mul_left blk (free_blocks blocks bfree k.0 k.1) in
    (omega (arith, b), omega (arith, b, h, part))

add_mount-Adds :
    (total used : ℕ) (m : Mount)
    → used ≤ total
    → IsMounted m
    → total + mount_bytes m < 2 ^ 64
    → Adds total (add_mount (total, used) m) (mount_bytes m)
unfolding add_mount mount_bytes
add_mount-Adds total used m h k b = elim (Bool-cases (is_ignored m.fstype ignore_fs)) [
  | inl skip ↦ rw skip (omega arith, h)
  | inr kept ↦
      let bytes_of : mount_bytes m ≡ stat_bytes m.stat = rw kept refl in
      rw kept (add_stat-Adds total used m.stat h k (omega (arith, b, bytes_of)))
]

add_mounts-Adds :
    (sums : ℕ × ℕ) (mounts : List Mount)
    → sums.1 ≤ sums.0
    → All IsMounted mounts
    → sums.0 + whole_of mounts < 2 ^ 64
    → Adds sums.0 (add_mounts sums mounts) (whole_of mounts)
unfolding add_mounts whole_of
add_mounts-Adds sums [] h k b = (omega arith, h)
add_mounts-Adds sums (m ∷ mounts) h k b =
    let now = add_mount-Adds sums.0 sums.1 m h k.0 (omega (arith, b)) in
    let later = add_mounts-Adds (add_mount sums m) mounts now.1 k.1 (omega (arith, b, now.0)) in
    (omega (arith, later.0, now.0), later.1)

-- If no disk has more free blocks than blocks and all the bytes have 64 bits, then the whole is the sum
-- over the disks that are not ignored, and no more than that is in use.
pub read_disk_usage_bounds :
    (mounts : List Mount)
    → All IsMounted mounts
    → whole_of mounts < 2 ^ 64
    → ((read_disk_usage (some mounts)).0 ≡ whole_of mounts)
      × ((read_disk_usage (some mounts)).1 ≤ whole_of mounts)
unfolding read_disk_usage
read_disk_usage_bounds mounts k b =
    let all_of = add_mounts-Adds (0, 0) mounts (omega arith) k (omega (arith, b)) in
    (omega (arith, all_of.0), omega (arith, all_of.0, all_of.1))
