-- ===== src/LinuxPatches/Install.antt =====
-- agent/platform/linux/patches_linux.c: `leo_patches_install`.
pub mod Ends
use leo_one.Prelude.{
  ◌==◌, if◌then◌else◌, length, take, Bytes, bytes, ℕ, Bool, true, false, ◌&&◌, List, [], ◌∷◌, ◌++◌,
}
use leo_one.Prelude.Int.{negsuc}
use leo_one.Types.{LeoError, ok, err_system, patch_install_max_count}
use leo_one.Agent.Exec.{ExecResult, Outcome, succeeded, update_argv, apt_env, systemctl_argv}
use leo_one.LinuxPatches.Collect.{Pkgmgr, no_pkgmgr, apt, dnf}

-- leo_exec_argv: argv, extra environment, timeout
abbrev pub Exec : Type 0
Exec = List Bytes → List Bytes → ℕ → Outcome

-- What a call returns, and the argument vectors that it ran, in order.
pub record Installed : Type 0 where
  pub outcome : Outcome
  pub argvs : List (List Bytes)

abbrev pub shutdown_argv : List Bytes
shutdown_argv = bytes "shutdown" ∷ bytes "-r" ∷ bytes "+1" ∷ []

-- `_schedule_reboot`: the argument vectors that it runs.
pub schedule_reboot : Exec → List (List Bytes)
schedule_reboot exec =
    if succeeded (exec shutdown_argv [] 15)
    then shutdown_argv ∷ []
    else shutdown_argv ∷ systemctl_argv ∷ []

abbrev pub apt_argv : List Bytes → List Bytes
apt_argv ids =
    bytes "apt-get"
    ∷ bytes "install"
    ∷ bytes "-y"
    ∷ bytes "--only-upgrade"
    ∷ bytes "--"
    ∷ take patch_install_max_count ids

-- `_install_apt`
pub install_apt : Exec → List Bytes → ℕ → Installed
install_apt exec ids timeout_secs =
    let updated = exec update_argv apt_env timeout_secs in
    if succeeded updated
    then record {
      outcome = exec (apt_argv ids) apt_env timeout_secs;
      argvs = update_argv ∷ apt_argv ids ∷ [];
    }
    else record { outcome = updated; argvs = update_argv ∷ [] }

abbrev pub dnf_argv : List Bytes → List Bytes
dnf_argv ids = bytes "dnf" ∷ bytes "update" ∷ bytes "-y" ∷ take patch_install_max_count ids

-- `_install_dnf`
pub install_dnf : Exec → List Bytes → ℕ → Installed
install_dnf exec ids timeout_secs = record {
  outcome = exec (dnf_argv ids) [] timeout_secs;
  argvs = dnf_argv ids ∷ [];
}

-- The reboot behind the installation.
pub with_reboot : Exec → Bool → Installed → Installed
unfolding schedule_reboot
with_reboot exec reboot_after r =
    if succeeded r.outcome && reboot_after
    then record { outcome = r.outcome; argvs = r.argvs ++ schedule_reboot exec }
    else r

pub install_by : Exec → List Bytes → Bool → ℕ → Pkgmgr → Installed
unfolding install_apt install_dnf with_reboot
install_by exec ids reboot_after timeout_secs apt =
    with_reboot exec reboot_after (install_apt exec ids timeout_secs)
install_by exec ids reboot_after timeout_secs dnf =
    with_reboot exec reboot_after (install_dnf exec ids timeout_secs)
install_by exec ids reboot_after timeout_secs no_pkgmgr = record {
  outcome = (
    ok,
    record {
      exit_code = negsuc 0;
      stdout_buf = [];
      stderr_buf = bytes "Aucun gestionnaire de paquets supporté détecté";
    },
  );
  argvs = [];
}

-- `leo_patches_install`, on what `*result` held.
unfoldable pub leo_patches_install : Exec → Pkgmgr → List Bytes → Bool → ℕ → ExecResult → Installed
unfolding install_by
leo_patches_install exec k [] reboot_after timeout_secs old = record {
  outcome = (err_system, old);
  argvs = [];
}
leo_patches_install exec k (id ∷ ids) reboot_after timeout_secs old =
    install_by exec (id ∷ ids) reboot_after timeout_secs k
