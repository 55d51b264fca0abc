-- ===== src/WinExec/Tests.antt =====
-- agent/platform/windows/executor_win.c: a command line with every kind of argument, and a script that
-- prints three letters.
use leo_one.Prelude.{
  ltb, if◌then◌else◌, length, Bytes, bytes, str_eq, ◌≡◌, refl, ◌↔◌, true, none, some, List, [], ◌∷◌,
}
use leo_one.Prelude.Int.{pos}
use leo_one.Types.{ok, err_timeout}
use leo_one.Agent.Exec.{ExecResult}
use leo_one.LinuxExec.{stdout_max, stderr_max}
use leo_one.WinExec.Cmdline.{build_cmdline}
use leo_one.WinExec.Cmdline.Whole.{appended_all, build_cmdline-whole}
use leo_one.WinExec.Cmdline.Reader.{read_args, read_args-build_cmdline}
use leo_one.WinExec.Child.{
  wait_object, wait_timeout, Process, Windows, Finished, wait_ms, run_child,
}
use leo_one.WinExec.Child.Ends.{captured, run_child-Closes}
use leo_one.WinExec.Script.{delete_file, leo_exec_script}
use leo_one.WinExec.Script.Runs.{script_path, RunsOnly, leo_exec_script-RunsOnly}

abbrev quoting : List Bytes
quoting = bytes "app.exe" ∷ bytes "C:\\a b\\" ∷ bytes "say \"x\\\"" ∷ [] ∷ bytes "a\\b" ∷ []

quoting-build_cmdline :
    build_cmdline 80 quoting
    ≡ some (bytes "app.exe \"C:\\a b\\\\\" \"say \\\"x\\\\\\\"\" \"\" a\\b")
unfolding build_cmdline
quoting-build_cmdline = refl

quoting_too_long : build_cmdline 20 quoting ≡ none
unfolding build_cmdline
quoting_too_long = refl

read_args-build_cmdline_example :
    read_args (bytes "app.exe \"C:\\a b\\\\\" \"say \\\"x\\\\\\\"\" \"\" a\\b") ≡ quoting
read_args-build_cmdline_example =
    read_args-build_cmdline 80 quoting
      (bytes "app.exe \"C:\\a b\\\\\" \"say \\\"x\\\\\\\"\" \"\" a\\b") quoting-build_cmdline

build_cmdline-whole_example :
    build_cmdline 80 quoting
    ≡ (if ltb (length (appended_all [] quoting)) 80 then some (appended_all [] quoting) else none)
build_cmdline-whole_example = build_cmdline-whole 80 quoting

abbrev letters : Process
letters = record {
  out_thread = true;
  err_thread = true;
  wait = λ ms. wait_object;
  out = record { chunks = bytes "ab" ∷ bytes "c" ∷ []; closes = true };
  err = record { chunks = []; closes = true };
  exit_code = some 0;
}

abbrev windows : Windows
windows = record {
  temp_dir = some (bytes "T\\");
  unique = bytes "1";
  opens = λ path. true;
  fwrite = λ text. length text;
  fclose = λ text. text;
  deletes = true;
  out_pipe = true;
  err_pipe = true;
  environment = none;
  allocates = true;
  create_process = λ cmdline env files. some letters;
}

run_child-Closes_example :
    (f : Finished) × (run_child windows [] (bytes "cmd") [] (pos 60) ≡ some f)
    × ((f.ret ≡ err_timeout) ↔ (letters.wait (wait_ms (pos 60)) ≡ wait_timeout))
    × (f.result.stdout_buf ≡ captured true stdout_max letters.out)
    × (f.result.stderr_buf ≡ captured true stderr_max letters.err)
run_child-Closes_example =
    run_child-Closes windows [] (bytes "cmd") [] (pos 60) letters refl refl refl (λ _. refl)
      (λ _. refl)

abbrev unset : ExecResult
unset = record { exit_code = pos 7; stdout_buf = []; stderr_buf = [] }

abbrev printed : Finished
printed = record {
  ret = ok;
  result = record { exit_code = pos 0; stdout_buf = bytes "abc"; stderr_buf = [] };
  files = [];
  spawned =
      some (bytes "cmd.exe /c T\\leo_exec_1.bat", (bytes "T\\leo_exec_1.bat", bytes "echo") ∷ []);
}

printed-leo_exec_script :
    leo_exec_script windows [] (bytes "cmd") (bytes "echo") (pos 60) unset ≡ some printed
unfolding leo_exec_script run_child build_cmdline str_eq
printed-leo_exec_script = refl

leo_exec_script-RunsOnly_example :
    (windows.deletes ≡ true → printed.files ≡ [])
    × RunsOnly windows
        (script_path windows (bytes "cmd"))
        []
        (bytes "cmd")
        (bytes "echo")
        printed.spawned
leo_exec_script-RunsOnly_example =
    leo_exec_script-RunsOnly windows [] (bytes "cmd") (bytes "echo") (pos 60) unset printed
      (unfold delete_file in refl) printed-leo_exec_script
