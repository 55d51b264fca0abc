-- ===== src/Agent/Exec/Tests.antt =====
-- The reports of an execution thread whose programs all succeed.
use leo_one.Prelude.{bytes, refl, [], ◌∷◌}
use leo_one.Types.{ok}
use leo_one.Prelude.Int.{pos}
use leo_one.Agent.{install_packages, ExecCtx}
use leo_one.Agent.Exec.{ExecResult, Executor, by_status, succeeded, install_report, exec_report}
use leo_one.Agent.Exec.Zero.{IsDone, exec_report-zero}

abbrev pub run_all : Executor
run_all = record {
  exec_script = λ i s t. (ok, done);
  exec_argv = λ argv env t. (ok, done);
  patches_install = λ ids r t. (ok, done);
  file_transfer_run = λ u n d s t. (ok, bytes "/x", bytes "");
}
  where
    done : ExecResult
    done = record { exit_code = pos 0; stdout_buf = bytes "done"; stderr_buf = bytes "" }

abbrev two_packages : ExecCtx
two_packages = record {
  cmd_id = bytes "c-1";
  timeout_secs = 300;
  task = install_packages (bytes "vim" ∷ bytes "git" ∷ []);
}

exec_report-zero_example : IsDone run_all two_packages.task two_packages.timeout_secs
unfolding exec_report install_report by_status succeeded
exec_report-zero_example = exec_report-zero run_all two_packages refl
