-- ===== src/Agent/Exec/Zero.antt =====
-- When a CMD_RESULT says 0, and what a reboot asks of `shutdown`.
use leo_one.Prelude.{Bytes, bytes, ℕ, ◌+◌, ◌*◌, ◌≤◌, ◌<◌, ◌≡◌, ◌⊎◌, true, List, [], ◌∷◌, arith}
use leo_one.Types.{LeoError, ok}
use leo_one.Prelude.Int.{pos}
use leo_one.Agent.{
  Task, run_script, install_packages, reboot_host, apply_patches, fetch_file, gather_inventory,
  ExecCtx,
}
use leo_one.Agent.Exec.{
  Outcome, Executor, by_status, script_report, apt_env, update_argv, install_argv, succeeded,
  install_report, reboot_minutes, shutdown_argv, systemctl_argv, reboot_report, transfer_report,
  exec_report,
}

-- What a result of 0 is to mean for each kind of command: the run ended, with the exit code 0.
abbrev pub IsDone : Executor → Task → ℕ → Type 0
IsDone ex (run_script interpreter script) t = succeeded (ex.exec_script interpreter script t) ≡ true
IsDone ex (install_packages names) t =
    (succeeded (ex.exec_argv update_argv apt_env t) ≡ true)
    × (succeeded (ex.exec_argv (install_argv names) apt_env t) ≡ true)
IsDone ex (reboot_host delay_sec) t =
    (succeeded (ex.exec_argv (shutdown_argv delay_sec) [] t) ≡ true)
    ⊎ (succeeded (ex.exec_argv systemctl_argv [] t) ≡ true)
IsDone ex (apply_patches ids reboot_after) t =
    succeeded (ex.patches_install ids reboot_after t) ≡ true
IsDone ex (fetch_file url name sha256_hex size) t =
    (ex.file_transfer_run url name sha256_hex size t).0 ≡ ok
IsDone ex gather_inventory t = ⊥

-- A report of 0 by the shared pattern is a run that succeeded.
by_status-zero :
    (o : Outcome) (timed_out broken : Bytes) (argvs : List (List Bytes))
    → (by_status o timed_out broken argvs).code ≡ pos 0
    → succeeded o ≡ true
unfolding by_status succeeded
by_status-zero o timed_out broken argvs h = ground arith

script_report-zero :
    (interpreter : Bytes) (o : Outcome)
    → (script_report interpreter o).code ≡ pos 0
    → succeeded o ≡ true
unfolding script_report succeeded
script_report-zero interpreter o h = ground arith

install_report-zero :
    (ex : Executor) (names : List Bytes) (t : ℕ)
    → (install_report ex names t).code ≡ pos 0
    → IsDone ex (install_packages names) t
unfolding install_report
install_report-zero ex names t h = ground (
  arith,
  by_status-zero (ex.exec_argv update_argv apt_env t) (bytes "Timeout pendant 'apt-get update'")
      (bytes "Erreur système pendant 'apt-get update'") (update_argv ∷ []),
  by_status-zero (ex.exec_argv (install_argv names) apt_env t)
      (bytes "Timeout pendant 'apt-get install'") (bytes "Erreur système pendant 'apt-get install'")
      (update_argv ∷ install_argv names ∷ []),
)

reboot_report-zero :
    (ex : Executor) (delay_sec t : ℕ)
    → (reboot_report ex delay_sec t).code ≡ pos 0
    → IsDone ex (reboot_host delay_sec) t
unfolding reboot_report
reboot_report-zero ex delay_sec t h = ground (
  arith,
  by_status-zero (ex.exec_argv systemctl_argv [] t)
      (bytes "Timeout pendant la planification du redémarrage")
      (bytes
        "Erreur système lors de la planification du redémarrage (shutdown et systemctl ont tous deux échoué)")
      (shutdown_argv delay_sec ∷ systemctl_argv ∷ []),
)

transfer_report-zero : (r : LeoError × Bytes × Bytes) → (transfer_report r).code ≡ pos 0 → r.0 ≡ ok
unfolding transfer_report
transfer_report-zero r h = ground arith

-- If the CMD_RESULT of an execution thread says 0, then the run that it reports did succeed: the
-- script, the patches or the transfer; both `apt-get update` and `apt-get install`; `shutdown` or
-- else `systemctl reboot`.
pub exec_report-zero :
    (ex : Executor) (ctx : ExecCtx)
    → (exec_report ex ctx).code ≡ pos 0
    → IsDone ex ctx.task ctx.timeout_secs
unfolding exec_report
exec_report-zero ex ctx h = by_task ctx.task h
  where
    by_task :
        (task : Task)
        → (exec_report ex (record ctx { task = task })).code ≡ pos 0
        → IsDone ex task ctx.timeout_secs
    by_task (run_script interpreter script) h' =
        script_report-zero interpreter (ex.exec_script interpreter script ctx.timeout_secs) h'
    by_task (install_packages names) h' = install_report-zero ex names ctx.timeout_secs h'
    by_task (reboot_host delay_sec) h' = reboot_report-zero ex delay_sec ctx.timeout_secs h'
    by_task (apply_patches ids reboot_after) h' =
        by_status-zero (ex.patches_install ids reboot_after ctx.timeout_secs)
          (bytes "Timeout pendant l'installation des patchs")
          (bytes "Erreur système pendant l'installation des patchs") [] h'
    by_task (fetch_file url name sha256_hex size) h' =
        transfer_report-zero (ex.file_transfer_run url name sha256_hex size ctx.timeout_secs) h'
    by_task gather_inventory h' = ground arith

-- The minutes given to `shutdown` are the delay rounded up: never sooner than asked, and less than a
-- minute later.
pub reboot_minutes_rounds_up :
    (delay_sec : ℕ)
    → (delay_sec ≤ 60 * reboot_minutes delay_sec) × (60 * reboot_minutes delay_sec < delay_sec + 60)
unfolding reboot_minutes
reboot_minutes_rounds_up delay_sec = omega arith
