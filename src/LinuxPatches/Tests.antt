-- ===== src/LinuxPatches/Tests.antt =====
-- agent/platform/linux/patches_linux.c: two lines of apt, and an update of one package.
use leo_one.Prelude.{
  take, All, bytes, starts_with, ◌≡◌, refl, true, false, none, some, [], ◌∷◌, ◌++◌, arith,
}
use leo_one.Prelude.Int.{pos}
use leo_one.Prelude.Decimal.{skip_spaces}
use leo_one.Types.{ok, important, critical}
use leo_one.Agent.{patch_id_valid, apply_patches, ExecCtx}
use leo_one.Agent.Exec.{ExecResult, Executor, by_status, succeeded, exec_report}
use leo_one.LinuxPatches.Lines.{severity_of, looks_security, parse_apt_line, parse_dnf_line}
use leo_one.LinuxPatches.Lines.Sound.{Fits}
use leo_one.LinuxPatches.Lines.Parts.{IsPatchOf, parse_apt_line-parts}
use leo_one.LinuxPatches.Collect.{apt, Packages, leo_patches_collect}
use leo_one.LinuxPatches.Collect.Bounds.{offered, leo_patches_collect-offered}
use leo_one.LinuxPatches.Install.{Exec, leo_patches_install}
use leo_one.LinuxPatches.Install.Ends.{
  RunsOnly, leo_patches_install-RunsOnly, IsInstalled, exec_report-IsInstalled,
}

parse_apt_line-parts_example : IsPatchOf (bytes "bash") (bytes "jammy-Security") (bytes "5.1") (
    parse_apt_line (
      bytes "bash"
      ++ (b'/' ∷ (bytes "jammy-Security" ++ (b' ' ∷ (bytes "5.1" ++ (b' ' ∷ bytes "amd64")))))))
parse_apt_line-parts_example =
    parse_apt_line-parts (bytes "bash") (bytes "jammy-Security") (bytes "5.1") (bytes "amd64")
      (omega arith) (omega arith) (omega arith) (omega arith) (omega arith) (omega arith)
      (omega arith) (omega arith)

security_is_critical : severity_of (bytes "jammy-Security") ≡ critical
unfolding looks_security starts_with
security_is_critical = refl

dnf_line_parts :
    parse_dnf_line (bytes "bash.x86_64   5.1.16-1.fc38    updates")
    ≡ some record {
      id = bytes "bash.x86_64";
      title = bytes "bash.x86_64 → 5.1.16-1.fc38";
      severity = important;
      size_bytes = 0;
    }
unfolding parse_dnf_line looks_security starts_with skip_spaces
dnf_line_parts = refl

abbrev debian : Packages
debian = record {
  has_apt = true;
  has_dnf = false;
  apt_list = some (
      bytes "Listing... Done"
      ++ (b'\n' ∷ (bytes "vim/jammy 9.0 amd64" ++ (b'\n' ∷ bytes "sed/jammy 4.8 amd64"))));
  dnf_check = none;
}

leo_patches_collect-offered_example :
    (leo_patches_collect debian (pos 1) ≡ some (take 1 (offered debian)))
    × All Fits (take 1 (offered debian))
leo_patches_collect-offered_example = leo_patches_collect-offered debian 0

abbrev quiet : ExecResult
quiet = record { exit_code = pos 0; stdout_buf = []; stderr_buf = [] }

abbrev works : Exec
works argv env t = (ok, quiet)

leo_patches_install-RunsOnly_example :
    RunsOnly apt
      (bytes "vim" ∷ [])
      true
      (leo_patches_install works apt (bytes "vim" ∷ []) true 60 quiet)
leo_patches_install-RunsOnly_example =
    leo_patches_install-RunsOnly works apt (bytes "vim" ∷ []) true 60 quiet

abbrev linux : Executor
linux = record {
  exec_script = λ interpreter script t. (ok, quiet);
  exec_argv = works;
  patches_install = λ ids reboot t. (leo_patches_install works apt ids reboot t quiet).outcome;
  file_transfer_run = λ url name sha size t. (ok, [], []);
}

abbrev upgrade : ExecCtx
upgrade = record {
  cmd_id = bytes "c";
  timeout_secs = 60;
  task = apply_patches (bytes "vim" ∷ []) false;
}

upgrade_done : (exec_report linux upgrade).code ≡ pos 0
unfolding exec_report by_status leo_patches_install succeeded
upgrade_done = refl

exec_report-IsInstalled_example : IsInstalled works apt (bytes "vim" ∷ []) 60
exec_report-IsInstalled_example =
    exec_report-IsInstalled works apt linux quiet upgrade (bytes "vim" ∷ []) false
      (λ is reboot t. refl) refl (omega arith) upgrade_done

-- An identifier that dnf takes for an option passes the agent's check.
option_valid : patch_id_valid (bytes "--nogpgcheck") ≡ true
unfolding patch_id_valid
option_valid = refl
