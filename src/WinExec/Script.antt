-- ===== src/WinExec/Script.antt =====
-- agent/platform/windows/executor_win.c: `leo_exec_script`, with its temporary file, and
-- `leo_exec_argv`.
pub mod Runs
use leo_one.Prelude.{
  ◌==◌, if◌then◌else◌, length, take, Bytes, bytes, str_eq, ℕ, ◌-◌, min, Bool, true, false, not,
  ◌||◌, Option, none, some, List, [], ◌∷◌, ◌++◌,
}
use leo_one.Prelude.Int.{ℤ}
use leo_one.Types.{LeoError, err_protocol, err_system}
use leo_one.Agent.Exec.{ExecResult}
use leo_one.WinExec.Cmdline.{cmdline_max, build_cmdline}
use leo_one.WinExec.Child.{Files, Windows, Finished, run_child}

-- `_interpreter_allowed`, with its list `ALLOWED_INTERPRETERS`
pub interpreter_allowed : Bytes → Bool
interpreter_allowed interp = str_eq interp (bytes "cmd") || str_eq interp (bytes "powershell")

-- `DeleteFileA`
unfoldable pub delete_file : Bytes → Files → Files
delete_file path [] = []
delete_file path ((p, text) ∷ files) =
    let rest = delete_file path files in if str_eq p path then rest else (p, text) ∷ rest

-- A call of DeleteFileA, which may fail without notice.
unfoldable pub try_delete : Windows → Bytes → Files → Files
unfolding delete_file
try_delete w path files = if w.deletes then delete_file path files else files

-- `MAX_PATH`
abbrev pub max_path : ℕ
max_path = 260

-- The path of the script's file, as snprintf writes it into `tmppath`.
pub tmp_path : Bytes → Bytes → Bytes → Bytes
tmp_path dir unique ext = take (max_path - 1) (dir ++ (bytes "leo_exec_" ++ (unique ++ ext)))

-- The file is truncated, then holds what fclose, whose result is not looked at, leaves of the bytes that
-- fwrite took.
pub written_file : Windows → Bytes → Bytes → Files → Option Bytes × Files
unfolding try_delete
written_file w script path files =
    let taken = min (w.fwrite script) (length script) in
    let left : Files = (path, w.fclose (take taken script)) ∷ delete_file path files in
    if not (w.opens path)
    then (none, files)
    else if taken == length script
    then (some path, left)
    else (none, try_delete w path left)

pub file_in : Windows → Bytes → Bytes → Files → Option Bytes → Option Bytes × Files
unfolding written_file tmp_path
file_in w script ext files none = (none, files)
file_in w script ext files (some dir) = written_file w script (tmp_path dir w.unique ext) files

-- `_write_script_tmp`: the path, or none on an error.
pub write_script_tmp : Windows → Bytes → Bytes → Files → Option Bytes × Files
unfolding file_in
write_script_tmp w script ext files = file_in w script ext files w.temp_dir

-- The extension that the interpreter expects, and the argument vector for a script's file.
pub ext_of : Bool → Bytes
ext_of is_powershell = if is_powershell then bytes ".ps1" else bytes ".bat"

pub script_argv : Bool → Bytes → List Bytes
script_argv is_powershell path =
    if is_powershell
    then bytes "powershell.exe"
      ∷ bytes "-NoProfile"
      ∷ bytes "-ExecutionPolicy"
      ∷ bytes "Bypass"
      ∷ bytes "-File"
      ∷ path
      ∷ []
    else bytes "cmd.exe" ∷ bytes "/c" ∷ path ∷ []

abbrev pub refused : LeoError → ExecResult → Files → Finished
refused e old files = record { ret = e; result = old; files = files; spawned = none }

pub run_cmdline : Windows → Files → List Bytes → ℤ → ExecResult → Option Bytes → Option Finished
unfolding run_child
run_cmdline w files extra_env timeout_secs old none = some (refused err_system old files)
run_cmdline w files extra_env timeout_secs old (some cmdline) =
    run_child w files cmdline extra_env timeout_secs

-- `DeleteFileA(tmppath)` behind the child
pub without_file : Windows → Bytes → Option Finished → Option Finished
unfolding try_delete
without_file w path none = none
without_file w path (some f) = some record f { files = try_delete w path f.files }

pub run_script_file : Windows → Bool → ℤ → ExecResult → Option Bytes × Files → Option Finished
unfolding without_file run_cmdline script_argv
run_script_file w is_powershell timeout_secs old (none, files) = some (refused err_system old files)
run_script_file w is_powershell timeout_secs old (some path, files) = without_file w path (
    run_cmdline w files [] timeout_secs old
      (build_cmdline cmdline_max (script_argv is_powershell path)))

-- `leo_exec_script`, on what `*result` held.
unfoldable pub leo_exec_script : Windows → Files → Bytes → Bytes → ℤ → ExecResult → Option Finished
unfolding interpreter_allowed run_script_file write_script_tmp ext_of
leo_exec_script w files interpreter script timeout_secs old =
    let is_powershell = str_eq interpreter (bytes "powershell") in
    if not (interpreter_allowed interpreter)
    then some (refused err_protocol old files)
    else run_script_file w is_powershell timeout_secs old
        (write_script_tmp w script (ext_of is_powershell) files)

-- `leo_exec_argv`
pub leo_exec_argv : Windows → Files → List Bytes → List Bytes → ℤ → ExecResult → Option Finished
unfolding run_cmdline
leo_exec_argv w files [] extra_env timeout_secs old = some (refused err_system old files)
leo_exec_argv w files (arg ∷ argv) extra_env timeout_secs old =
    run_cmdline w files extra_env timeout_secs old (build_cmdline cmdline_max (arg ∷ argv))
