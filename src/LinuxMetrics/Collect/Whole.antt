-- ===== src/LinuxMetrics/Collect/Whole.antt =====
-- agent/platform/linux/metrics_linux.c: what a collection says is whole, and fits what is sent of it.
use leo_one.Prelude.{
  ltb, if◌then◌else◌, Bool-cases, length, length-append, take, take-of-le, ℕ, suc, ◌-◌, ◌^◌, min,
  ◌≤◌, ◌<◌, ◌≡◌, refl, sym, ap, ◌∙◌, inl, inr, Bool, true, false, Option, none, some, List, [], ◌∷◌,
  ◌++◌, arith,
}
use leo_one.Prelude.Int.{pos}
use leo_one.Prelude.Double.{Double}
use leo_one.Types.{Metrics, max_cpu_cores}
use leo_one.Protocol.{count_of}
use leo_one.LinuxMetrics.{
  CpuStats, Snapshot, no_snapshot, MemLine, StatLine, other_line, short_line, total_line, core_line,
  max_cpus, read_lines, read_cpu_stats, read_meminfo, Load, core_loads, collect_read, collect_cpu,
}
use leo_one.LinuxMetrics.Collect.{
  Files, cores_of, read_process_count, percents_of, leo_metrics_collect,
}

-- A snapshot holds each core that was counted, up to the size of its array.
abbrev IsHeld : Snapshot → Type 0
IsHeld snap = length snap.per_core ≡ min snap.core_count max_cpus

core_line-IsHeld :
    (snap : Snapshot) (st : CpuStats)
    → IsHeld snap
    → length (if ltb snap.core_count max_cpus then snap.per_core ++ (st ∷ []) else snap.per_core)
      ≡ min (suc snap.core_count) max_cpus
core_line-IsHeld snap st h = elim (Bool-cases (ltb snap.core_count 256)) [
  | inl room ↦
      let below : snap.core_count < 256 = ground (arith, room) in
      simp room (omega (arith, h, length-append snap.per_core (st ∷ []), below))
  | inr full ↦
      let above : 256 ≤ snap.core_count = ground (arith, full) in
      simp full (omega (arith, h, above))
]

read_lines-IsHeld :
    (lines : List StatLine) (snap : Snapshot) → IsHeld snap → IsHeld (read_lines snap lines)
unfolding read_lines
read_lines-IsHeld [] snap h = h
read_lines-IsHeld (other_line ∷ lines) snap h = h
read_lines-IsHeld (short_line ∷ lines) snap h = read_lines-IsHeld lines snap h
read_lines-IsHeld (total_line st ∷ lines) snap h =
    read_lines-IsHeld lines (record snap { total = st }) h
read_lines-IsHeld (core_line st ∷ lines) snap h =
    read_lines-IsHeld lines _ (core_line-IsHeld snap st h)

length-core_loads : (prev curr : List CpuStats) → length (core_loads prev curr) ≡ length curr
unfolding core_loads
length-core_loads prev [] = refl
length-core_loads [] (c ∷ curr) = ap suc (length-core_loads [] curr)
length-core_loads (p ∷ prev) (c ∷ curr) = ap suc (length-core_loads prev curr)

length-percents_of :
    (percent : ℕ → ℕ → Double) (loads : List (Option (ℕ × ℕ)))
    → length (percents_of percent loads) ≡ length loads
unfolding percents_of
length-percents_of percent [] = refl
length-percents_of percent (l ∷ loads) = ap suc (length-percents_of percent loads)

held_if :
    (b : Bool) (prev curr : Snapshot) (x y : Snapshot × Load)
    → prev.valid ≡ b
    → length x.1.cpu_cores ≡ min curr.core_count max_cpus
    → length y.1.cpu_cores ≡ 0
    → length (if b then x else y).1.cpu_cores ≡ cores_of prev (some curr)
unfolding cores_of
held_if true prev curr x y e h k = rw e (ground (arith, h))
held_if false prev curr x y e h k = rw e k

collect_cpu-cores :
    (prev : Snapshot) (file : Option (List StatLine))
    → length (collect_cpu prev file).1.cpu_cores ≡ cores_of prev (read_cpu_stats file)
unfolding collect_cpu collect_read read_cpu_stats
collect_cpu-cores prev none = unfold cores_of in refl
collect_cpu-cores prev (some lines) =
    held_if prev.valid prev _ _ _ refl
      (length-core_loads prev.per_core _ ∙ read_lines-IsHeld lines no_snapshot refl) refl

cores_of-le : (prev : Snapshot) (o : Option Snapshot) → cores_of prev o ≤ max_cpu_cores
unfolding cores_of
cores_of-le prev none = omega arith
cores_of-le prev (some curr) = ground arith

used_memory :
    (o : Option (List MemLine)) → (read_meminfo o).2 ≡ (read_meminfo o).0 - (read_meminfo o).1
unfolding read_meminfo
used_memory none = refl
used_memory (some lines) = ground arith

processes-lt : (o : Option ℕ) → read_process_count o < 2 ^ 32
unfolding read_process_count
processes-lt none = omega arith
processes-lt (some n) = omega arith

-- As many loads as cores are counted, each of which build_metrics sends; the memory in use is what is not
-- available; and the number of processes has 32 bits.
abbrev pub IsWhole : Metrics → Type 0
IsWhole m =
    (m.cpu_core_count ≡ pos (length m.cpu_per_core))
    × (take (min (count_of m.cpu_core_count) max_cpu_cores) m.cpu_per_core ≡ m.cpu_per_core)
    × (m.ram_used_bytes ≡ m.ram_total_bytes - m.ram_available_bytes)
    × (m.process_count < 2 ^ 32)

-- Whatever the files say and whatever was there before, a collection holds as many loads as it counts
-- cores, every one of them among those that build_metrics sends; the memory in use is what is not
-- available; and the number of processes has 32 bits.
pub leo_metrics_collect-IsWhole :
    (percent : ℕ → ℕ → Double) (prev : Snapshot) (f : Files)
    → IsWhole (leo_metrics_collect percent prev f).1
unfolding leo_metrics_collect
leo_metrics_collect-IsWhole percent prev f = (
  ap pos (sym counted),
  take-of-le _ _ (omega (arith, counted, cores_of-le prev (read_cpu_stats f.stat))),
  used_memory f.meminfo,
  processes-lt f.loadavg,
)
  where
    counted :
        length (percents_of percent (collect_cpu prev f.stat).1.cpu_cores)
        ≡ cores_of prev (read_cpu_stats f.stat)
    counted = length-percents_of percent _ ∙ collect_cpu-cores prev f.stat
