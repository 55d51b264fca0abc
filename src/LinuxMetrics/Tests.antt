-- ===== src/LinuxMetrics/Tests.antt =====
-- agent/platform/linux/metrics_linux.c: the snapshots of one machine.
use leo_one.Prelude.{All, ◌≡◌, none, some, [], ◌∷◌, arith}
use leo_one.LinuxMetrics.{
  CpuStats, no_stats, total_line, core_line, mem_total, mem_available, cpu_usage, no_load, init,
  collect_all,
}
use leo_one.LinuxMetrics.Share.{IsShare, cpu_usage-IsShare}
use leo_one.Prelude.Double.{of_nat}
use leo_one.LinuxMetrics.Collect.{Files, leo_metrics_collect}
use leo_one.LinuxMetrics.Collect.Whole.{IsWhole, leo_metrics_collect-IsWhole}
use leo_one.LinuxMetrics.Unready.{collect_all-init}

abbrev before : CpuStats
before = record no_stats { user = 10; idle = 100; iowait = 5 }

abbrev after : CpuStats
after = record no_stats { user = 20; idle = 120; iowait = 5 }

cpu_usage-IsShare_example : IsShare (cpu_usage before after)
cpu_usage-IsShare_example = cpu_usage-IsShare before after (
  omega arith,
  omega arith,
  omega arith,
  omega arith,
  omega arith,
  omega arith,
  omega arith,
  omega arith,
  omega arith,
)

collect_all-init_example :
    All (λ l. l ≡ no_load) (collect_all (init none) (some (total_line after ∷ []) ∷ none ∷ []))
collect_all-init_example = collect_all-init (some (total_line after ∷ []) ∷ none ∷ [])

abbrev files : Files
files = record {
  stat = some (total_line after ∷ core_line after ∷ []);
  meminfo = some (mem_total 100 ∷ mem_available 40 ∷ []);
  mounts = none;
  net = none;
  loadavg = some 321;
}

leo_metrics_collect-IsWhole_example :
    IsWhole
      (leo_metrics_collect
        (λ busy all_time. of_nat busy)
        (init (some (total_line before ∷ [])))
        files).1
leo_metrics_collect-IsWhole_example =
    leo_metrics_collect-IsWhole (λ busy all_time. of_nat busy)
      (init (some (total_line before ∷ []))) files
