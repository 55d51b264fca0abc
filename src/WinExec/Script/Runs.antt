-- ===== src/WinExec/Script/Runs.antt =====
-- agent/platform/windows/executor_win.c: what `leo_exec_script` may start, and what it leaves behind.
use mathlib.Core.Path.{subst}
use leo_one.Prelude.{
  Bool-cases, take, take-of-le, arith, ◌==◌, length, min, Bytes, bytes, str_eq, str_eq_iff, ◌≡◌,
  refl, inl, inr, ◌∙◌, true, Option, none, some, List, [], ◌∷◌,
}
use leo_one.Prelude.Int.{ℤ}
use leo_one.Agent.Exec.{ExecResult}
use leo_one.WinExec.Cmdline.{cmdline_max, build_cmdline}
use leo_one.WinExec.Cmdline.Reader.{read_args, read_args-build_cmdline}
use leo_one.WinExec.Child.{Files, Windows, Finished, run_child}
use leo_one.WinExec.Child.Ends.{Leaves, run_child-Leaves}
use leo_one.WinExec.Script.{
  interpreter_allowed, delete_file, try_delete, tmp_path, written_file, file_in, write_script_tmp,
  ext_of, script_argv, run_cmdline, without_file, run_script_file, leo_exec_script,
}

-- The path that a call chooses for the script's file, if there is a directory for it.
abbrev pub path_of : Option Bytes → Bytes → Bytes → Bytes
path_of none unique ext = []
path_of (some dir) unique ext = tmp_path dir unique ext

abbrev pub script_path : Windows → Bytes → Bytes
script_path w interpreter =
    path_of w.temp_dir w.unique (ext_of (str_eq interpreter (bytes "powershell")))

-- What a call may have started: nothing, or a command line that is read as the interpreter's own
-- arguments for a file that holds what fclose left of the whole script, if the interpreter is an allowed
-- one.
abbrev pub RunsOnly : Windows → Bytes → Files → Bytes → Bytes → Option (Bytes × Files) → Type 0
RunsOnly w path files interpreter script none = Unit
RunsOnly w path files interpreter script (some (cmdline, seen)) =
    (interpreter_allowed interpreter ≡ true)
    × (read_args cmdline ≡ script_argv (str_eq interpreter (bytes "powershell")) path)
    × (seen ≡ (path, w.fclose script) ∷ delete_file path files)

abbrev LeavesOnly : Windows → Bytes → Files → Bytes → Bytes → Option Finished → Type 0
LeavesOnly w path files interpreter script none = Unit
LeavesOnly w path files interpreter script (some f) =
    (w.deletes ≡ true → f.files ≡ files) × RunsOnly w path files interpreter script f.spawned

delete_file-head :
    (path text : Bytes) (files : Files)
    → delete_file path ((path, text) ∷ files) ≡ delete_file path files
unfolding delete_file
delete_file-head path text files = rw ((str_eq_iff path path).1 refl) refl

module _ (w : Windows) (path : Bytes) (files : Files) (interpreter script : Bytes) (t : ℤ)
    (old : ExecResult) (allowed : interpreter_allowed interpreter ≡ true)
    (unused : delete_file path files ≡ files) where
  -- The files while the script runs.
  abbrev seen : Files
  seen = (path, w.fclose script) ∷ delete_file path files

  abbrev argv : List Bytes
  argv = script_argv (str_eq interpreter (bytes "powershell")) path

  left-delete_file :
      (text : Bytes)
      → w.deletes ≡ true
      → try_delete w path ((path, text) ∷ delete_file path files) ≡ files
  unfolding try_delete
  left-delete_file text deletes = rw (deletes, unused) (delete_file-head path text files ∙ unused)

  without_file-LeavesOnly :
      (cmdline : Bytes) (o : Option Finished)
      → read_args cmdline ≡ argv
      → Leaves cmdline seen o
      → LeavesOnly w path files interpreter script (without_file w path o)
  unfolding without_file
  without_file-LeavesOnly cmdline none h k = tt
  without_file-LeavesOnly cmdline (some f) h (same, inl nothing) =
      rw (same, nothing) (left-delete_file (w.fclose script), tt)
  without_file-LeavesOnly cmdline (some f) h (same, inr started) =
      rw (same, started) (left-delete_file (w.fclose script), (allowed, h, refl))

  run_cmdline-LeavesOnly :
      (o : Option Bytes)
      → ((cmdline : Bytes) → o ≡ some cmdline → read_args cmdline ≡ argv)
      → LeavesOnly w path files interpreter script
          (without_file w path (run_cmdline w seen [] t old o))
  unfolding run_cmdline
  run_cmdline-LeavesOnly none h = unfold without_file in (left-delete_file (w.fclose script), tt)
  run_cmdline-LeavesOnly (some cmdline) h =
      without_file-LeavesOnly cmdline (run_child w seen cmdline [] t) (h cmdline refl)
        (run_child-Leaves w seen cmdline [] t)

  written_file-LeavesOnly : LeavesOnly w path files interpreter script (
      run_script_file w
        (str_eq interpreter (bytes "powershell"))
        t
        old
        (written_file w script path files))
  unfolding run_script_file written_file
  written_file-LeavesOnly = elim (Bool-cases (w.opens path)) [
    | inr shut ↦ rw shut ((λ _. refl), tt)
    | inl opened ↦ elim (Bool-cases (min (w.fwrite script) (length script) == length script)) [
      | inr short ↦
          rw (opened, short)
            (left-delete_file (w.fclose (take (min (w.fwrite script) (length script)) script)), tt)
      | inl whole ↦
          let all_taken : take (min (w.fwrite script) (length script)) script ≡ script =
            take-of-le (min (w.fwrite script) (length script)) script (ground (arith, whole)) in
          rw (opened, whole, all_taken)
            (run_cmdline-LeavesOnly (build_cmdline cmdline_max argv)
              (read_args-build_cmdline cmdline_max argv))
    ]
  ]

file_in-LeavesOnly :
    (w : Windows) (dir : Option Bytes) (files : Files) (interpreter script ext : Bytes) (t : ℤ)
    (old : ExecResult)
    → interpreter_allowed interpreter ≡ true
    → delete_file (path_of dir w.unique ext) files ≡ files
    → LeavesOnly w (path_of dir w.unique ext) files interpreter script (
        run_script_file w
          (str_eq interpreter (bytes "powershell"))
          t
          old
          (file_in w script ext files dir))
unfolding run_script_file file_in
file_in-LeavesOnly w none files interpreter script ext t old allowed unused = ((λ _. refl), tt)
file_in-LeavesOnly w (some dir) files interpreter script ext t old allowed unused =
    written_file-LeavesOnly w (tmp_path dir w.unique ext) files interpreter script t old allowed
      unused

leo_exec_script-LeavesOnly :
    (w : Windows) (files : Files) (interpreter script : Bytes) (t : ℤ) (old : ExecResult)
    → delete_file (script_path w interpreter) files ≡ files
    → LeavesOnly w
        (script_path w interpreter)
        files
        interpreter
        script
        (leo_exec_script w files interpreter script t old)
unfolding leo_exec_script write_script_tmp
leo_exec_script-LeavesOnly w files interpreter script t old unused =
    elim (Bool-cases (interpreter_allowed interpreter)) [
      | inl allowed ↦ rw allowed (
          file_in-LeavesOnly w w.temp_dir files interpreter script
            (ext_of (str_eq interpreter (bytes "powershell"))) t old allowed unused)
      | inr other ↦ rw other ((λ _. refl), tt)
    ]

-- If no file has the temporary name, then a call that returns leaves the files as they were, provided
-- that DeleteFileA succeeds; and whatever the system does, it has started nothing but a command line that
-- is read as the arguments for an allowed interpreter, on a file that holds what fclose left of the whole
-- script.
pub leo_exec_script-RunsOnly :
    (w : Windows) (files : Files) (interpreter script : Bytes) (t : ℤ) (old : ExecResult)
    (f : Finished)
    → delete_file (script_path w interpreter) files ≡ files
    → leo_exec_script w files interpreter script t old ≡ some f
    → (w.deletes ≡ true → f.files ≡ files)
      × RunsOnly w (script_path w interpreter) files interpreter script f.spawned
leo_exec_script-RunsOnly w files interpreter script t old f unused h =
    subst (LeavesOnly w (script_path w interpreter) files interpreter script) h
      (leo_exec_script-LeavesOnly w files interpreter script t old unused)
