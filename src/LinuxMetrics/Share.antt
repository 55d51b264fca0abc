-- ===== src/LinuxMetrics/Share.antt =====
-- agent/platform/linux/metrics_linux.c: the parts are never more than the whole.
use mathlib.Core.Path.{subst}
use leo_one.Prelude.{
  ◌==◌, if◌then◌else◌, Bool-cases, ℕ, ◌+◌, ◌-◌, ◌^◌, ◌≤◌, ◌<◌, ◌≡◌, sym, ap₂, ◌∙◌, inl, inr, Option,
  none, some, arith,
}
use leo_one.LinuxMetrics.{CpuStats, delta64, idle_of, total_of, cpu_usage}

-- No counter has gone back, and the sums have 64 bits.
abbrev pub IsLater : CpuStats → CpuStats → Type 0
IsLater prev curr =
    (prev.user ≤ curr.user)
    × (prev.nice ≤ curr.nice)
    × (prev.system ≤ curr.system)
    × (prev.idle ≤ curr.idle)
    × (prev.iowait ≤ curr.iowait)
    × (prev.irq ≤ curr.irq)
    × (prev.softirq ≤ curr.softirq)
    × (prev.steal ≤ curr.steal)
    × (curr.user + curr.nice + curr.system + curr.idle + curr.iowait + curr.irq + curr.softirq
          + curr.steal
        < 2 ^ 64)

abbrev pub IsShare : Option (ℕ × ℕ) → Type 0
IsShare none = Unit
IsShare (some (busy, whole)) = (busy ≤ whole) × (0 < whole)

abbrev sum_of : CpuStats → ℕ
sum_of st = st.user + st.nice + st.system + st.idle + st.iowait + st.irq + st.softirq + st.steal

delta64_of_le : (c p : ℕ) → p ≤ c → c < 2 ^ 64 → delta64 c p ≡ c - p
delta64_of_le c p h k = omega (arith, h, k)

delta64-IsShare :
    (whole idle_part : ℕ)
    → idle_part ≤ whole
    → whole < 2 ^ 64
    → IsShare (if whole == 0 then none else some (delta64 whole idle_part, whole))
delta64-IsShare whole idle_part h k = elim (Bool-cases (whole == 0)) [
  | inl zero_time ↦ rw zero_time tt
  | inr passed ↦
      rw (passed, delta64_of_le whole idle_part h k) (omega arith, ground (arith, passed))
]

total_of_lem : (st : CpuStats) → sum_of st < 2 ^ 64 → total_of st ≡ sum_of st
unfolding total_of
total_of_lem st h = omega (arith, h)

idle_of_lem : (st : CpuStats) → sum_of st < 2 ^ 64 → idle_of st ≡ st.idle + st.iowait
unfolding idle_of
idle_of_lem st h = omega (arith, h)

-- Between two snapshots in which no counter has gone back, the load is a share of a time that has
-- passed: a percentage from 0 to 100.
pub cpu_usage-IsShare : (prev curr : CpuStats) → IsLater prev curr → IsShare (cpu_usage prev curr)
unfolding cpu_usage
cpu_usage-IsShare prev curr h =
    let (u, n, s, i, w, q, f, t, bound) = h in
    let before : sum_of prev < 2 ^ 64 = omega (arith, u, n, s, i, w, q, f, t, bound) in
    let whole : delta64 (total_of curr) (total_of prev) ≡ sum_of curr - sum_of prev =
      ap₂ delta64 (total_of_lem curr bound) (total_of_lem prev before)
      ∙ delta64_of_le (sum_of curr) (sum_of prev) (omega (arith, u, n, s, i, w, q, f, t)) bound in
    let idle_part : delta64 (idle_of curr) (idle_of prev)
        ≡ curr.idle + curr.iowait - (prev.idle + prev.iowait) =
      ap₂ delta64 (idle_of_lem curr bound) (idle_of_lem prev before)
      ∙ delta64_of_le (curr.idle + curr.iowait) (prev.idle + prev.iowait) (omega (arith, i, w))
          (omega (arith, bound)) in
    subst IsShare
      (sym (ap₂ (λ a b. if a == 0 then none else some (delta64 a b, a)) whole idle_part))
      (delta64-IsShare (sum_of curr - sum_of prev)
        (curr.idle + curr.iowait - (prev.idle + prev.iowait))
        (omega (arith, u, n, s, i, w, q, f, t)) (omega (arith, bound)))
