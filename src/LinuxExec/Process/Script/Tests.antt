-- ===== src/LinuxExec/Process/Script/Tests.antt =====
-- agent/platform/linux/executor_linux.c: a script that prints three letters.
use leo_one.Prelude.{length, All, bytes, str_eq, ◌≡◌, refl, ◌≢◌, ◌↔◌, inl, inr, true, some, [], ◌∷◌}
use leo_one.Prelude.Int.{pos}
use leo_one.Types.{ok, err_protocol}
use leo_one.Agent.Exec.{ExecResult}
use leo_one.LinuxExec.{allowed_interpreters, exited, is_late, run_loop}
use leo_one.LinuxExec.Tests.{at, printing}
use leo_one.LinuxExec.Process.{Kernel, Finished, deadline_of}
use leo_one.LinuxExec.Process.Script.{leo_exec_script}
use leo_one.LinuxExec.Process.Script.Runs.{StartsOnly, leo_exec_script-StartsOnly}
use leo_one.LinuxExec.Process.Script.Results.{
  HasSelect, ClockGoesOn, leo_exec_script-ClockGoesOn, leo_exec_script-err_protocol,
}

abbrev linux : Kernel
linux = record {
  pipes = true;
  forks = true;
  mkstemp = λ files. some (bytes "/tmp/leo_exec_a1b2c3");
  write = λ text. some (length text);
  child = λ files argv env. record {
    start = at 0;
    rounds = printing;
    status = λ killed. some (exited 0);
  };
}

abbrev unset : ExecResult
unset = record { exit_code = pos 0; stdout_buf = []; stderr_buf = [] }

abbrev echoed : Finished
echoed = record {
  ret = ok;
  result = record { exit_code = pos 3; stdout_buf = bytes "abc"; stderr_buf = bytes "e" };
  files = [];
  spawned = some (
    bytes "sh" ∷ bytes "/tmp/leo_exec_a1b2c3" ∷ [],
    (bytes "/tmp/leo_exec_a1b2c3", bytes "echo") ∷ [],
  );
}

echoed-leo_exec_script :
    leo_exec_script linux [] (bytes "sh") (bytes "echo") (pos 60) unset ≡ some echoed
unfolding leo_exec_script run_loop str_eq
echoed-leo_exec_script = refl

linux-HasSelect : All HasSelect printing
linux-HasSelect = ((λ e. cc), ((λ e. cc), ((λ e. cc), ((λ e. cc), tt))))

linux-ClockGoesOn : ClockGoesOn linux (pos 60)
linux-ClockGoesOn files argv env = (
  inr (inr (inr (inl (unfold is_late in unfold deadline_of in refl)))),
  linux-HasSelect,
  (exited 0, refl),
)

leo_exec_script-ClockGoesOn_example :
    (f : Finished) × (leo_exec_script linux [] (bytes "sh") (bytes "echo") (pos 60) unset ≡ some f)
leo_exec_script-ClockGoesOn_example =
    leo_exec_script-ClockGoesOn linux [] (bytes "sh") (bytes "echo") (pos 60) unset
      linux-ClockGoesOn

leo_exec_script-StartsOnly_example :
    (echoed.files ≡ []) × StartsOnly [] (bytes "sh") (bytes "echo") echoed.spawned
leo_exec_script-StartsOnly_example =
    leo_exec_script-StartsOnly linux [] (bytes "sh") (bytes "echo") (pos 60) unset echoed
      echoed-leo_exec_script

leo_exec_script-err_protocol_example :
    (ok ≡ err_protocol) ↔ All (λ n. bytes "sh" ≢ n) allowed_interpreters
leo_exec_script-err_protocol_example =
    leo_exec_script-err_protocol linux [] (bytes "sh") (bytes "echo") (pos 60) unset echoed
      echoed-leo_exec_script
