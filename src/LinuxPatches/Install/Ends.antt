-- ===== src/LinuxPatches/Install/Ends.antt =====
-- agent/platform/linux/patches_linux.c: what an installation may run, what a success means, and what the
-- CMD_RESULT of agent/src/agent.c says of it.
use leo_one.Prelude.{
  Bool-cases, length, take-of-le, All, All-append, All-weaken, Bytes, bytes, ℕ, ◌≤◌, ◌≡◌, refl, ◌⊎◌,
  inl, inr, Bool, true, false, ◌&&◌, List, [], ◌∷◌, arith,
}
use leo_one.Prelude.Int.{pos}
use leo_one.Types.{patch_install_max_count}
use leo_one.Agent.{apply_patches, ExecCtx}
use leo_one.Agent.Exec.{
  ExecResult, Outcome, Executor, succeeded, update_argv, apt_env, systemctl_argv, exec_report,
}
use leo_one.Agent.Exec.Zero.{exec_report-zero}
use leo_one.LinuxPatches.Collect.{Pkgmgr, no_pkgmgr, apt, dnf}
use leo_one.LinuxPatches.Install.{
  Exec, Installed, shutdown_argv, schedule_reboot, apt_argv, install_apt, dnf_argv, install_dnf,
  with_reboot, install_by, leo_patches_install,
}

-- The commands that an installation consists of.
abbrev pub IsStep : Pkgmgr → List Bytes → List Bytes → Type 0
IsStep apt ids argv = (argv ≡ update_argv) ⊎ (argv ≡ apt_argv ids)
IsStep dnf ids argv = argv ≡ dnf_argv ids
IsStep no_pkgmgr ids argv = false ≡ true

-- The commands that reboot the machine, and when they may run.
abbrev pub IsReboot : Bool → Outcome → List Bytes → Type 0
IsReboot reboot_after o argv =
    (reboot_after ≡ true)
    × (succeeded o ≡ true)
    × ((argv ≡ shutdown_argv) ⊎ (argv ≡ systemctl_argv))

abbrev pub RunsOnly : Pkgmgr → List Bytes → Bool → Installed → Type 0
RunsOnly k ids reboot_after r =
    All (λ argv. IsStep k ids argv ⊎ IsReboot reboot_after r.outcome argv) r.argvs

schedule_reboot-All :
    (exec : Exec) (reboot_after : Bool) (o : Outcome)
    → reboot_after ≡ true
    → succeeded o ≡ true
    → All (IsReboot reboot_after o) (schedule_reboot exec)
unfolding schedule_reboot
schedule_reboot-All exec reboot_after o h k =
    elim (Bool-cases (succeeded (exec shutdown_argv [] 15))) [
      | inl planned ↦ rw planned ((h, k, inl refl), tt)
      | inr failed ↦ rw failed ((h, k, inl refl), ((h, k, inr refl), tt))
    ]

with_reboot-RunsOnly :
    (exec : Exec) (k : Pkgmgr) (ids : List Bytes) (reboot_after : Bool) (r : Installed)
    → All (IsStep k ids) r.argvs
    → RunsOnly k ids reboot_after (with_reboot exec reboot_after r)
unfolding with_reboot
with_reboot-RunsOnly exec k ids reboot_after r h =
    let Allowed = λ (argv : List Bytes). IsStep k ids argv ⊎ IsReboot reboot_after r.outcome argv in
    let steps : All Allowed r.argvs = All-weaken (λ argv step. inl step) r.argvs h in
    elim (Bool-cases (succeeded r.outcome && reboot_after)) [
      | inl both ↦
          let worked : succeeded r.outcome ≡ true = ground (arith, both) in
          let asked : reboot_after ≡ true = ground (arith, both) in
          rw both (
            All-append Allowed r.argvs (schedule_reboot exec) steps (
              All-weaken (λ argv step. inr step) (schedule_reboot exec)
                (schedule_reboot-All exec reboot_after r.outcome asked worked)))
      | inr not_both ↦ rw not_both steps
    ]

install_apt-All :
    (exec : Exec) (ids : List Bytes) (t : ℕ) → All (IsStep apt ids) (install_apt exec ids t).argvs
unfolding install_apt
install_apt-All exec ids t = elim (Bool-cases (succeeded (exec update_argv apt_env t))) [
  | inl updated ↦ rw updated (inl refl, (inr refl, tt))
  | inr failed ↦ rw failed (inl refl, tt)
]

install_by-RunsOnly :
    (exec : Exec) (ids : List Bytes) (reboot_after : Bool) (t : ℕ) (k : Pkgmgr)
    → RunsOnly k ids reboot_after (install_by exec ids reboot_after t k)
unfolding install_by
install_by-RunsOnly exec ids reboot_after t apt =
    with_reboot-RunsOnly exec apt ids reboot_after (install_apt exec ids t)
      (install_apt-All exec ids t)
install_by-RunsOnly exec ids reboot_after t dnf =
    with_reboot-RunsOnly exec dnf ids reboot_after (install_dnf exec ids t)
      (unfold install_dnf in (refl, tt))
install_by-RunsOnly exec ids reboot_after t no_pkgmgr = tt

-- An installation runs nothing but the update of the package lists and the one command of its package
-- manager that is given the identifiers, and the commands that reboot the machine only if that was asked
-- for and the installation succeeded.
pub leo_patches_install-RunsOnly :
    (exec : Exec) (k : Pkgmgr) (ids : List Bytes) (reboot_after : Bool) (t : ℕ) (old : ExecResult)
    → RunsOnly k ids reboot_after (leo_patches_install exec k ids reboot_after t old)
unfolding leo_patches_install
leo_patches_install-RunsOnly exec k [] reboot_after t old = tt
leo_patches_install-RunsOnly exec k (id ∷ ids) reboot_after t old =
    install_by-RunsOnly exec (id ∷ ids) reboot_after t k

-- The commands of the package manager ended with 0, and they were given every identifier.
abbrev pub IsInstalled : Exec → Pkgmgr → List Bytes → ℕ → Type 0
IsInstalled exec apt ids t =
    (succeeded (exec update_argv apt_env t) ≡ true)
    × (succeeded (
          exec
            (bytes "apt-get"
              ∷ bytes "install"
              ∷ bytes "-y"
              ∷ bytes "--only-upgrade"
              ∷ bytes "--"
              ∷ ids)
            apt_env t)
        ≡ true)
IsInstalled exec dnf ids t =
    succeeded (exec (bytes "dnf" ∷ bytes "update" ∷ bytes "-y" ∷ ids) [] t) ≡ true
IsInstalled exec no_pkgmgr ids t = false ≡ true

with_reboot-outcome :
    (exec : Exec) (reboot_after : Bool) (r : Installed)
    → (with_reboot exec reboot_after r).outcome ≡ r.outcome
unfolding with_reboot
with_reboot-outcome exec reboot_after r = ground arith

install_apt-IsInstalled :
    (exec : Exec) (ids : List Bytes) (t : ℕ)
    → length ids ≤ patch_install_max_count
    → succeeded (install_apt exec ids t).outcome ≡ true
    → IsInstalled exec apt ids t
unfolding install_apt
install_apt-IsInstalled exec ids t h k =
    elim (Bool-cases (succeeded (exec update_argv apt_env t))) [
      | inl updated ↦
          let ran : succeeded (exec (apt_argv ids) apt_env t) ≡ true = rw updated at k in
          (updated, rw (take-of-le patch_install_max_count ids h) at ran)
      | inr failed ↦
          let not_updated : succeeded (exec update_argv apt_env t) ≡ true = rw failed at k in
          absurd (ground (arith, failed, not_updated))
    ]

install_by-IsInstalled :
    (exec : Exec) (ids : List Bytes) (reboot_after : Bool) (t : ℕ) (k : Pkgmgr)
    → length ids ≤ patch_install_max_count
    → succeeded (install_by exec ids reboot_after t k).outcome ≡ true
    → IsInstalled exec k ids t
unfolding install_by
install_by-IsInstalled exec ids reboot_after t apt h s =
    install_apt-IsInstalled exec ids t h
      (rw (with_reboot-outcome exec reboot_after (install_apt exec ids t)) at s)
install_by-IsInstalled exec ids reboot_after t dnf h s =
    let ran : succeeded (exec (dnf_argv ids) [] t) ≡ true =
      unfold install_dnf in
      (rw (with_reboot-outcome exec reboot_after (install_dnf exec ids t)) at s) in
    rw (take-of-le patch_install_max_count ids h) at ran
install_by-IsInstalled exec ids reboot_after t no_pkgmgr h s = unfold succeeded in s

leo_patches_install-IsInstalled :
    (exec : Exec) (k : Pkgmgr) (ids : List Bytes) (reboot_after : Bool) (t : ℕ) (old : ExecResult)
    → length ids ≤ patch_install_max_count
    → succeeded (leo_patches_install exec k ids reboot_after t old).outcome ≡ true
    → IsInstalled exec k ids t
unfolding leo_patches_install
leo_patches_install-IsInstalled exec k [] reboot_after t old h s =
    let wrong : false ≡ true = unfold succeeded in s in absurd (ground (arith, wrong))
leo_patches_install-IsInstalled exec k (id ∷ ids) reboot_after t old h s =
    install_by-IsInstalled exec (id ∷ ids) reboot_after t k h s

-- Where the platform's installation is that of Linux: if the CMD_RESULT of an INSTALL_PATCHES with at
-- most 64 identifiers says 0, then the package manager of the machine was given every one of them, and
-- every command of it ended with 0.
pub exec_report-IsInstalled :
    (exec : Exec) (k : Pkgmgr) (ex : Executor) (old : ExecResult) (ctx : ExecCtx) (ids : List Bytes)
    (reboot_after : Bool)
    → ((is : List Bytes) (reboot : Bool) (t : ℕ)
        → ex.patches_install is reboot t ≡ (leo_patches_install exec k is reboot t old).outcome)
    → ctx.task ≡ apply_patches ids reboot_after
    → length ids ≤ patch_install_max_count
    → (exec_report ex ctx).code ≡ pos 0
    → IsInstalled exec k ids ctx.timeout_secs
exec_report-IsInstalled exec k ex old ctx ids reboot_after linux task h zero_code =
    let done : succeeded (ex.patches_install ids reboot_after ctx.timeout_secs) ≡ true =
      rw task at (exec_report-zero ex ctx zero_code) in
    leo_patches_install-IsInstalled exec k ids reboot_after ctx.timeout_secs old h
      (rw (linux ids reboot_after ctx.timeout_secs) at done)
