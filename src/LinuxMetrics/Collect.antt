-- ===== src/LinuxMetrics/Collect.antt =====
-- agent/platform/linux/metrics_linux.c: `leo_metrics_collect`, from what the files of /proc say.
pub mod Whole
use leo_one.Prelude.{
  ltb, if◌then◌else◌, ℕ, ◌%◌, ◌^◌, Bool, false, Option, none, some, List, [], ◌∷◌,
}
use leo_one.Prelude.Int.{ℤ, pos}
use leo_one.Prelude.Double.{Double, finite}
use leo_one.Types.{Metrics, max_cpu_cores}
use leo_one.LinuxMetrics.{
  Snapshot, no_snapshot, StatLine, MemLine, read_cpu_stats, read_meminfo, collect_cpu,
}
use leo_one.LinuxMetrics.Totals.{Mount, Interface, read_disk_usage, read_net_stats}

-- What the files say at a collection; of /proc/loadavg it is the number of processes, if its first five
-- fields are there.
pub record Files : Type 0 where
  pub stat : Option (List StatLine)
  pub meminfo : Option (List MemLine)
  pub mounts : Option (List Mount)
  pub net : Option (List Interface)
  pub loadavg : Option ℕ

pub read_process_count : Option ℕ → ℕ
read_process_count none = 0
read_process_count (some total) = total % 2 ^ 32

-- `cpu_core_count`
pub cores_of : Snapshot → Option Snapshot → ℕ
cores_of prev none = 0
cores_of prev (some curr) =
    if prev.valid
    then if ltb curr.core_count max_cpu_cores then curr.core_count else max_cpu_cores
    else 0

-- The `g_prev_cpu` that `leo_metrics_destroy` leaves.
abbrev pub destroy : Snapshot
destroy = no_snapshot

module _ (percent : ℕ → ℕ → Double) where
  -- The return of `_cpu_usage`, with its division in floating point as an argument.
  pub percent_of : Option (ℕ × ℕ) → Double
  percent_of none = finite false 0 0
  percent_of (some (busy, all_time)) = percent busy all_time

  pub percents_of : List (Option (ℕ × ℕ)) → List Double
  unfolding percent_of
  percents_of [] = []
  percents_of (l ∷ loads) = percent_of l ∷ percents_of loads

  -- `leo_metrics_collect`, on `g_prev_cpu`; the time of the collection is left out.
  pub leo_metrics_collect : Snapshot → Files → Snapshot × Metrics
  unfolding percent_of percents_of cores_of read_process_count
  leo_metrics_collect prev f = (
    (collect_cpu prev f.stat).0,
    record {
      cpu_total_percent = percent_of (collect_cpu prev f.stat).1.cpu_total;
      cpu_per_core = percents_of (collect_cpu prev f.stat).1.cpu_cores;
      cpu_core_count = pos (cores_of prev (read_cpu_stats f.stat));
      ram_total_bytes = (read_meminfo f.meminfo).0;
      ram_used_bytes = (read_meminfo f.meminfo).2;
      ram_available_bytes = (read_meminfo f.meminfo).1;
      disk_total_bytes = (read_disk_usage f.mounts).0;
      disk_used_bytes = (read_disk_usage f.mounts).1;
      net_bytes_in = (read_net_stats f.net).0;
      net_bytes_out = (read_net_stats f.net).1;
      process_count = read_process_count f.loadavg;
    },
  )
