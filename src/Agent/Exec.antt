-- ===== src/Agent/Exec.antt =====
-- agent/src/agent.c, `_exec_thread`: the commands that a detached thread runs, and the CMD_RESULT that
-- it makes of them. The programs run through `Executor` (executor.h, patches.h and file_transfer.h),
-- which the platform implements.
pub mod Zero
pub mod Tests
use leo_one.Prelude.{
  ltb, ◌==◌, if◌then◌else◌, length, take, Bytes, bytes, ℕ, ◌+◌, ◌/◌, Bool, false, List, [], ◌∷◌,
  ◌++◌,
}
use leo_one.Prelude.Int.{ℤ, pos, negsuc}
use leo_one.Prelude.Decimal.{decimal}
use leo_one.Types.{LeoError, ok, err_protocol, err_timeout}
use leo_one.Agent.{
  run_script, install_packages, reboot_host, apply_patches, fetch_file, gather_inventory, ExecCtx,
}

-- leo_exec_result_t
pub record ExecResult : Type 0 where
  pub exit_code : ℤ
  pub stdout_buf : Bytes
  pub stderr_buf : Bytes

abbrev pub Outcome : Type 0
Outcome = LeoError × ExecResult

pub record Executor : Type 0 where
  -- leo_exec_script: interpreter, script, timeout
  pub exec_script : Bytes → Bytes → ℕ → Outcome
  -- leo_exec_argv: argv, extra environment, timeout
  pub exec_argv : List Bytes → List Bytes → ℕ → Outcome
  -- leo_patches_install: ids, reboot_after, timeout
  pub patches_install : List Bytes → Bool → ℕ → Outcome
  -- leo_file_transfer_run: url, file name, digest, size, timeout; the final path and the error text
  pub file_transfer_run : Bytes → Bytes → Bytes → ℕ → ℕ → LeoError × Bytes × Bytes

-- What the CMD_RESULT says, and the argument vectors that were run for it, in order.
pub record Report : Type 0 where
  pub code : ℤ
  pub stdout_s : Bytes
  pub stderr_s : Bytes
  pub argvs : List (List Bytes)

-- `exit_code = -1` and an error text.
abbrev failure : Bytes → List (List Bytes) → Report
failure msg argvs = record { code = negsuc 0; stdout_s = bytes ""; stderr_s = msg; argvs = argvs }

abbrev success : ExecResult → List (List Bytes) → Report
success r argvs = record {
  code = r.exit_code;
  stdout_s = r.stdout_buf;
  stderr_s = r.stderr_buf;
  argvs = argvs;
}

-- The pattern of the switch: the result, or a text for a timeout, or one for any other error.
unfoldable pub by_status : Outcome → Bytes → Bytes → List (List Bytes) → Report
by_status (ok, r) timed_out broken argvs = success r argvs
by_status (err_timeout, r) timed_out broken argvs = failure timed_out argvs
by_status (_, r) timed_out broken argvs = failure broken argvs

script_report : Bytes → Outcome → Report
script_report interpreter (ok, r) = success r []
script_report interpreter (err_timeout, r) =
    failure (bytes "Timeout d'exécution dépassé — script interrompu (SIGKILL)") []
script_report interpreter (err_protocol, r) =
    failure (take 127 (bytes "Interpréteur non autorisé : " ++ interpreter)) []
script_report interpreter (_, r) = failure (bytes "Erreur système lors de l'exécution du script") []

abbrev pub apt_env : List Bytes
apt_env = bytes "DEBIAN_FRONTEND=noninteractive" ∷ []

abbrev pub update_argv : List Bytes
update_argv = bytes "apt-get" ∷ bytes "update" ∷ bytes "-qq" ∷ []

abbrev pub install_argv : List Bytes → List Bytes
install_argv names =
    bytes "apt-get"
    ∷ bytes "install"
    ∷ bytes "-y"
    ∷ bytes "--no-install-recommends"
    ∷ bytes "--"
    ∷ names

-- `rc == LEO_OK && exit_code == 0`
unfoldable pub succeeded : Outcome → Bool
succeeded (ok, r) = elim r.exit_code [ pos n ↦ n == 0 | negsuc n ↦ false ]
succeeded (_, r) = false

install_report : Executor → List Bytes → ℕ → Report
unfolding by_status succeeded
install_report ex names timeout =
    let updated = ex.exec_argv update_argv apt_env timeout in
    if succeeded updated
    then by_status (ex.exec_argv (install_argv names) apt_env timeout)
        (bytes "Timeout pendant 'apt-get install'")
        (bytes "Erreur système pendant 'apt-get install'") (update_argv ∷ install_argv names ∷ [])
    else by_status updated (bytes "Timeout pendant 'apt-get update'")
        (bytes "Erreur système pendant 'apt-get update'") (update_argv ∷ [])

-- `(delay + 59) / 60`
pub reboot_minutes : ℕ → ℕ
reboot_minutes delay_sec = (delay_sec + 59) / 60

-- "now", or "+%d" of the minutes.
delay_arg : ℕ → Bytes
unfolding reboot_minutes
delay_arg delay_sec =
    if ltb 0 delay_sec then b'+' ∷ decimal (reboot_minutes delay_sec) else bytes "now"

pub shutdown_argv : ℕ → List Bytes
unfolding delay_arg
shutdown_argv delay_sec = bytes "shutdown" ∷ bytes "-r" ∷ delay_arg delay_sec ∷ []

abbrev pub systemctl_argv : List Bytes
systemctl_argv = bytes "systemctl" ∷ bytes "reboot" ∷ []

reboot_report : Executor → ℕ → ℕ → Report
unfolding by_status succeeded
reboot_report ex delay_sec timeout =
    let planned = ex.exec_argv (shutdown_argv delay_sec) [] timeout in
    if succeeded planned
    then success planned.1 (shutdown_argv delay_sec ∷ [])
    else by_status (ex.exec_argv systemctl_argv [] timeout)
        (bytes "Timeout pendant la planification du redémarrage")
        (bytes
          "Erreur système lors de la planification du redémarrage (shutdown et systemctl ont tous deux échoué)")
        (shutdown_argv delay_sec ∷ systemctl_argv ∷ [])

transfer_report : LeoError × Bytes × Bytes → Report
transfer_report (ok, final_path, err) = record {
  code = pos 0;
  stdout_s = final_path;
  stderr_s = bytes "";
  argvs = [];
}
transfer_report (_, final_path, err) =
    failure (if length err == 0 then bytes "Échec du transfert de fichier" else err) []

-- The switch of `_exec_thread`.
unfoldable pub exec_report : Executor → ExecCtx → Report
unfolding script_report install_report reboot_report by_status transfer_report
exec_report ex ctx = elim ctx.task [
  | run_script interpreter script ↦
      script_report interpreter (ex.exec_script interpreter script ctx.timeout_secs)
  | install_packages names ↦ install_report ex names ctx.timeout_secs
  | reboot_host delay_sec ↦ reboot_report ex delay_sec ctx.timeout_secs
  | apply_patches ids reboot_after ↦
      by_status (ex.patches_install ids reboot_after ctx.timeout_secs)
        (bytes "Timeout pendant l'installation des patchs")
        (bytes "Erreur système pendant l'installation des patchs") []
  | fetch_file url name sha256_hex size ↦
      transfer_report (ex.file_transfer_run url name sha256_hex size ctx.timeout_secs)
  | gather_inventory ↦ failure (bytes "") []
]
