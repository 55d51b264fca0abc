-- ===== src/LinuxMetrics.antt =====
-- agent/platform/linux/metrics_linux.c: the load of the processors and the use of memory, disks and
-- network, from what the kernel's files say. What sscanf reads of a line is an argument.
pub mod Share
pub mod Unready
pub mod Totals
pub mod Collect
mod Tests
use leo_one.Prelude.{
  ltb, ◌==◌, if◌then◌else◌, ℕ, suc, ◌+◌, ◌-◌, ◌*◌, ◌%◌, ◌^◌, Bool, true, false, not, ◌&&◌, Option,
  none, some, List, [], ◌∷◌, ◌++◌,
}

-- cpu_stats_t
pub record CpuStats : Type 0 where
  pub user : ℕ
  pub nice : ℕ
  pub system : ℕ
  pub idle : ℕ
  pub iowait : ℕ
  pub irq : ℕ
  pub softirq : ℕ
  pub steal : ℕ

abbrev pub no_stats : CpuStats
no_stats = record {
  user = 0;
  nice = 0;
  system = 0;
  idle = 0;
  iowait = 0;
  irq = 0;
  softirq = 0;
  steal = 0;
}

-- cpu_snapshot_t; `per_core` holds the cores that have been read.
pub record Snapshot : Type 0 where
  pub total : CpuStats
  pub per_core : List CpuStats
  pub core_count : ℕ
  pub valid : Bool

abbrev pub no_snapshot : Snapshot
no_snapshot = record { total = no_stats; per_core = []; core_count = 0; valid = false }

abbrev pub max_cpus : ℕ
max_cpus = 256

-- A line of /proc/stat: one that does not begin with `cpu`, one with too few fields, the line of all
-- processors, or that of a core. The kernel writes all the fields.
pub data StatLine : Type 0 where
  other_line : StatLine
  short_line : StatLine
  total_line : CpuStats → StatLine
  core_line : CpuStats → StatLine

-- The loop over the lines. A core beyond the array is counted, but not kept.
pub read_lines : Snapshot → List StatLine → Snapshot
read_lines snap [] = snap
read_lines snap (other_line ∷ lines) = snap
read_lines snap (short_line ∷ lines) = read_lines snap lines
read_lines snap (total_line st ∷ lines) = read_lines (record snap { total = st }) lines
read_lines snap (core_line st ∷ lines) =
    read_lines
      (record snap {
        per_core =
            if ltb snap.core_count max_cpus then snap.per_core ++ (st ∷ []) else snap.per_core;
        core_count = suc snap.core_count;
      })
      lines

-- `_read_cpu_stats`: none when /proc/stat cannot be opened.
pub read_cpu_stats : Option (List StatLine) → Option Snapshot
unfolding read_lines
read_cpu_stats none = none
read_cpu_stats (some lines) = some (record (read_lines no_snapshot lines) { valid = true })

-- A difference of two counters of 64 bits
abbrev pub delta64 : ℕ → ℕ → ℕ
delta64 curr prev = (curr + (2 ^ 64 - prev)) % 2 ^ 64

pub idle_of : CpuStats → ℕ
idle_of st = (st.idle + st.iowait) % 2 ^ 64

pub total_of : CpuStats → ℕ
total_of st =
    (st.user + st.nice + st.system + st.idle + st.iowait + st.irq + st.softirq + st.steal) % 2 ^ 64

-- `_cpu_usage`: the busy part and the whole of the time between two snapshots, of which the code makes
-- a percentage in floating point; none stands for 0.0.
pub cpu_usage : CpuStats → CpuStats → Option (ℕ × ℕ)
unfolding total_of idle_of
cpu_usage prev curr =
    let total_delta = delta64 (total_of curr) (total_of prev) in
    let idle_delta = delta64 (idle_of curr) (idle_of prev) in
    if total_delta == 0 then none else some (delta64 total_delta idle_delta, total_delta)

-- A line of /proc/meminfo, with its number of kB.
pub data MemLine : Type 0 where
  mem_total : ℕ → MemLine
  mem_available : ℕ → MemLine
  mem_other : MemLine

-- `*total` and `*available`
pub record Memory : Type 0 where
  pub all_bytes : ℕ
  pub available : ℕ

mem_line : Memory → MemLine → Memory
mem_line m (mem_total kb) = record m { all_bytes = kb * 1024 % 2 ^ 64 }
mem_line m (mem_available kb) = record m { available = kb * 1024 % 2 ^ 64 }
mem_line m mem_other = m

pub mem_lines : Memory → List MemLine → Memory
unfolding mem_line
mem_lines m [] = m
mem_lines m (line ∷ lines) =
    let now = mem_line m line in
    let rest = mem_lines now lines in
    if not (now.all_bytes == 0) && not (now.available == 0) then now else rest

-- `_read_meminfo`: total, available and used
pub read_meminfo : Option (List MemLine) → ℕ × ℕ × ℕ
unfolding mem_lines
read_meminfo none = (0, 0, 0)
read_meminfo (some lines) =
    let m = mem_lines (record { all_bytes = 0; available = 0 }) lines in
    (m.all_bytes, m.available, if ltb m.available m.all_bytes then m.all_bytes - m.available else 0)

-- What a collection says of the processors: the whole load and that of each core.
pub record Load : Type 0 where
  pub cpu_total : Option (ℕ × ℕ)
  pub cpu_cores : List (Option (ℕ × ℕ))

-- The loads of the cores, where a core that was not there before is compared with zeros.
pub core_loads : List CpuStats → List CpuStats → List (Option (ℕ × ℕ))
unfolding cpu_usage
core_loads prev [] = []
core_loads [] (c ∷ curr) = cpu_usage no_stats c ∷ core_loads [] curr
core_loads (p ∷ prev) (c ∷ curr) = cpu_usage p c ∷ core_loads prev curr

abbrev pub no_load : Load
no_load = record { cpu_total = none; cpu_cores = [] }

collect_read : Snapshot → Option Snapshot → Snapshot × Load
unfolding core_loads
collect_read prev none = (prev, no_load)
collect_read prev (some curr) =
    if prev.valid
    then (
      curr,
      record {
        cpu_total = cpu_usage prev.total curr.total;
        cpu_cores = core_loads prev.per_core curr.per_core;
      },
    )
    else (prev, no_load)

-- The processors' part of `leo_metrics_collect`, on `g_prev_cpu`.
pub collect_cpu : Snapshot → Option (List StatLine) → Snapshot × Load
unfolding collect_read read_cpu_stats
collect_cpu prev file = collect_read prev (read_cpu_stats file)

or_unread : Option Snapshot → Snapshot
or_unread none = no_snapshot
or_unread (some snap) = snap

-- `leo_metrics_init`, on the zeroed `g_prev_cpu`
pub init : Option (List StatLine) → Snapshot
unfolding or_unread read_cpu_stats
init file = or_unread (read_cpu_stats file)

-- Collections one after the other, with what each says.
pub collect_all : Snapshot → List (Option (List StatLine)) → List Load
unfolding collect_cpu
collect_all prev [] = []
collect_all prev (file ∷ files) =
    (collect_cpu prev file).1 ∷ collect_all (collect_cpu prev file).0 files
