-- ===== src/LinuxExec/Process/Script.antt =====
-- agent/platform/linux/executor_linux.c: `leo_exec_script`, with its temporary file, and
-- `leo_exec_argv`.
pub mod Runs
pub mod Results
mod Tests
use leo_one.Prelude.{
  ◌==◌, if◌then◌else◌, length, Bytes, ℕ, Bool, true, not, Option, none, some, List, [], ◌∷◌,
}
use leo_one.Prelude.Int.{ℤ}
use leo_one.Types.{LeoError, err_protocol, err_system}
use leo_one.Agent.Exec.{ExecResult}
use leo_one.LinuxExec.Process.{Files, unlink, Kernel, Finished, run_child}
use leo_one.LinuxExec.{interpreter_allowed}

-- `written < 0 || (size_t)written != len`
pub is_short : Option ℕ → ℕ → Bool
is_short none len = true
is_short (some n) len = not (n == len)

written_file : Kernel → Bytes → Bytes → Files → Option Bytes × Files
unfolding is_short unlink
written_file k script path files =
    if is_short (k.write script) (length script)
    then (none, unlink path ((path, []) ∷ files))
    else (some path, (path, script) ∷ files)

script_file_at : Kernel → Bytes → Files → Option Bytes → Option Bytes × Files
unfolding written_file
script_file_at k script files none = (none, files)
script_file_at k script files (some path) = written_file k script path files

-- `_write_script_tmp`: the path, or none on an error. Its descriptor is closed at once.
pub write_script_tmp : Kernel → Bytes → Files → Option Bytes × Files
unfolding script_file_at
write_script_tmp k script files = script_file_at k script files (k.mkstemp files)

abbrev pub refused : LeoError → ExecResult → Files → Option Finished
refused e old files = some record { ret = e; result = old; files = files; spawned = none }

-- `unlink(tmppath)` behind the child
pub without_file : Bytes → Option Finished → Option Finished
unfolding unlink
without_file path none = none
without_file path (some f) =
    some record { ret = f.ret; result = f.result; files = unlink path f.files; spawned = f.spawned }

pub run_script_file : Kernel → Bytes → ℤ → ExecResult → Option Bytes × Files → Option Finished
unfolding without_file run_child
run_script_file k interpreter timeout_secs old (none, files) = refused err_system old files
run_script_file k interpreter timeout_secs old (some path, files) =
    without_file path (run_child k files (interpreter ∷ path ∷ []) [] timeout_secs)

-- `leo_exec_script`, on what `*result` held.
pub leo_exec_script : Kernel → Files → Bytes → Bytes → ℤ → ExecResult → Option Finished
unfolding interpreter_allowed run_script_file write_script_tmp
leo_exec_script k files interpreter script timeout_secs old =
    if not (interpreter_allowed interpreter)
    then refused err_protocol old files
    else run_script_file k interpreter timeout_secs old (write_script_tmp k script files)

-- `leo_exec_argv`
pub leo_exec_argv : Kernel → Files → List Bytes → List Bytes → ℤ → ExecResult → Option Finished
unfolding run_child
leo_exec_argv k files [] env timeout_secs old = refused err_system old files
leo_exec_argv k files (arg ∷ argv) env timeout_secs old =
    run_child k files (arg ∷ argv) env timeout_secs
