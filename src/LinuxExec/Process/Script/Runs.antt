-- ===== src/LinuxExec/Process/Script/Runs.antt =====
-- agent/platform/linux/executor_linux.c: what `leo_exec_script` may start, and what it leaves behind.
use mathlib.Core.Path.{subst}
use leo_one.Types.{LeoError}
use leo_one.LinuxExec.{Capture}
use leo_one.Prelude.{
  Bool, Bool-cases, length, Bytes, str_eq_iff, ◌≡◌, refl, inl, inr, true, Option, none, some, List,
  [], ◌∷◌,
}
use leo_one.Prelude.Int.{ℤ}
use leo_one.Agent.Exec.{ExecResult}
use leo_one.LinuxExec.Process.Script.{
  is_short, written_file, script_file_at, write_script_tmp, without_file, run_script_file,
  leo_exec_script,
}
use leo_one.LinuxExec.Process.{
  Files, unlink, Kernel, Finished, finish_reaped, reap, finish_child, run_child, watched,
  run_child-cases,
}
use leo_one.LinuxExec.{interpreter_allowed, Status, Ended}

-- What a call may have started: nothing, or the interpreter on a file that holds the whole script, if
-- the interpreter is one of the allowed ones.
abbrev pub StartsOnly : Files → Bytes → Bytes → Option (List Bytes × Files) → Type 0
StartsOnly files interpreter script none = Unit
StartsOnly files interpreter script (some (argv, seen)) =
    (interpreter_allowed interpreter ≡ true)
    × ((path : Bytes) × (argv ≡ interpreter ∷ path ∷ []) × (seen ≡ (path, script) ∷ files))

abbrev LeavesOnly : Files → Bytes → Bytes → Option Finished → Type 0
LeavesOnly files interpreter script none = Unit
LeavesOnly files interpreter script (some f) =
    (f.files ≡ files) × StartsOnly files interpreter script f.spawned

unlink-head : (path text : Bytes) (files : Files) → unlink path ((path, text) ∷ files) ≡ files
unfolding unlink
unlink-head path text files = rw ((str_eq_iff path path).1 refl) refl

finish_reaped-LeavesOnly :
    (files : Files) (interpreter script path : Bytes) (ret : LeoError) (c : Option Capture)
    → interpreter_allowed interpreter ≡ true
    → LeavesOnly files interpreter script
        (without_file path (finish_reaped ((path, script) ∷ files) (interpreter ∷ path ∷ []) ret c))
unfolding without_file finish_reaped
finish_reaped-LeavesOnly files interpreter script path ret none h = tt
finish_reaped-LeavesOnly files interpreter script path ret (some c) h =
    (unlink-head path script files, (h, (path, refl, refl)))

finish_child-LeavesOnly :
    (files : Files) (interpreter script path : Bytes) (status : Bool → Option Status)
    (e : Option Ended)
    → interpreter_allowed interpreter ≡ true
    → LeavesOnly files interpreter script (
        without_file path
          (finish_child ((path, script) ∷ files) (interpreter ∷ path ∷ []) status e))
unfolding without_file finish_child
finish_child-LeavesOnly files interpreter script path status none h = tt
finish_child-LeavesOnly files interpreter script path status (some e) h =
    finish_reaped-LeavesOnly files interpreter script path e.ret (reap status e) h

run_child-LeavesOnly :
    (k : Kernel) (files : Files) (interpreter script path : Bytes) (t : ℤ)
    → interpreter_allowed interpreter ≡ true
    → LeavesOnly files interpreter script
        (without_file path (run_child k ((path, script) ∷ files) (interpreter ∷ path ∷ []) [] t))
run_child-LeavesOnly k files interpreter script path t h =
    let seen = (path, script) ∷ files in
    let argv = interpreter ∷ path ∷ [] in
    elim (run_child-cases k seen argv [] t) [
      | inl fails ↦ rw fails (unfold without_file in (unlink-head path script files, tt))
      | inr started ↦ rw started (
          finish_child-LeavesOnly files interpreter script path (k.child seen argv []).status
            (watched k seen argv [] t) h)
    ]

script_file_at-LeavesOnly :
    (k : Kernel) (files : Files) (interpreter script : Bytes) (t : ℤ) (old : ExecResult)
    (o : Option Bytes)
    → interpreter_allowed interpreter ≡ true
    → LeavesOnly files interpreter script
        (run_script_file k interpreter t old (script_file_at k script files o))
unfolding run_script_file script_file_at written_file
script_file_at-LeavesOnly k files interpreter script t old none h = (refl, tt)
script_file_at-LeavesOnly k files interpreter script t old (some path) h =
    elim (Bool-cases (is_short (k.write script) (length script))) [
      | inl short ↦ rw short (unlink-head path [] files, tt)
      | inr whole ↦ rw whole (run_child-LeavesOnly k files interpreter script path t h)
    ]

leo_exec_script-LeavesOnly :
    (k : Kernel) (files : Files) (interpreter script : Bytes) (t : ℤ) (old : ExecResult)
    → LeavesOnly files interpreter script (leo_exec_script k files interpreter script t old)
unfolding leo_exec_script write_script_tmp
leo_exec_script-LeavesOnly k files interpreter script t old =
    elim (Bool-cases (interpreter_allowed interpreter)) [
      | inl allowed ↦
          rw allowed
            (script_file_at-LeavesOnly k files interpreter script t old (k.mkstemp files) allowed)
      | inr other ↦ rw other (refl, tt)
    ]

-- Whatever the system does, a call that returns has removed its temporary file on every path, and has
-- started nothing but an allowed interpreter, on a file that holds the whole script.
pub leo_exec_script-StartsOnly :
    (k : Kernel) (files : Files) (interpreter script : Bytes) (t : ℤ) (old : ExecResult)
    (f : Finished)
    → leo_exec_script k files interpreter script t old ≡ some f
    → (f.files ≡ files) × StartsOnly files interpreter script f.spawned
leo_exec_script-StartsOnly k files interpreter script t old f h =
    subst (LeavesOnly files interpreter script) h
      (leo_exec_script-LeavesOnly k files interpreter script t old)
