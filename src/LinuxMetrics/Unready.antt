-- ===== src/LinuxMetrics/Unready.antt =====
-- agent/platform/linux/metrics_linux.c: the first snapshot decides over all that follow.
use leo_one.Prelude.{All, ◌≡◌, refl, Option, none, some, List, [], ◌∷◌}
use leo_one.LinuxMetrics.{StatLine, no_load, collect_cpu, init, collect_all}

-- If the first snapshot cannot be taken, then every later collection says that the processors are idle,
-- whatever /proc/stat says by then: a snapshot is only kept where one was there before.
pub collect_all-init :
    (files : List (Option (List StatLine))) → All (λ l. l ≡ no_load) (collect_all (init none) files)
unfolding collect_all init collect_cpu
collect_all-init [] = tt
collect_all-init (none ∷ files) = (refl, collect_all-init files)
collect_all-init (some lines ∷ files) = (refl, collect_all-init files)
