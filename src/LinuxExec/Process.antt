-- ===== src/LinuxExec/Process.antt =====
-- agent/platform/linux/executor_linux.c: `_run_child`, the child with the loop that watches it.
pub mod Script
use leo_one.Prelude.{
  if◌then◌else◌, Bool-cases, Bytes, str_eq, ℕ, zero, suc, ◌+◌, ◌≡◌, refl, ◌⊎◌, inl, inr, Bool, not,
  Option, none, some, List, [], ◌∷◌,
}
use leo_one.Prelude.Int.{ℤ, pos, negsuc}
use leo_one.Types.{LeoError, err_system}
use leo_one.Agent.Exec.{ExecResult}
use leo_one.LinuxExec.{Timespec, Status, Round, Capture, exit_code_of, Ended, run_loop}

-- Files by their paths.
abbrev pub Files : Type 0
Files = List (Bytes × Bytes)

pub unlink : Bytes → Files → Files
unlink path [] = []
unlink path ((p, text) ∷ files) =
    let rest = unlink path files in if str_eq p path then files else (p, text) ∷ rest

-- A child process: when it was started, the rounds of the loop, and the status that a waitpid that
-- blocks gives of a child that was sent SIGKILL or was not, if that waitpid returns.
pub record Child : Type 0 where
  pub start : Timespec
  pub rounds : List Round
  pub status : Bool → Option Status

-- The operating system: whether both pipes can be made, whether fork succeeds, the name that mkstemp
-- chooses, how many bytes the write of the script takes, and what a child does that runs an argument
-- vector in an extended environment among these files.
pub record Kernel : Type 0 where
  pub pipes : Bool
  pub forks : Bool
  pub mkstemp : Files → Option Bytes
  pub write : Bytes → Option ℕ
  pub child : Files → List Bytes → List Bytes → Child

-- What a call leaves: its result, the files, and the child that it started, with the files that this
-- child could see.
pub record Finished : Type 0 where
  pub ret : LeoError
  pub result : ExecResult
  pub files : Files
  pub spawned : Option (List Bytes × Files)

-- `memset` and `exit_code = -1`
abbrev pub fresh : Capture
fresh = record { out = []; err = []; code = negsuc 0 }

abbrev pub result_of : Capture → ExecResult
result_of c = record { exit_code = c.code; stdout_buf = c.out; stderr_buf = c.err }

-- `deadline`, if `timeout_secs > 0`
pub deadline_of : Timespec → ℤ → Option Timespec
deadline_of t (pos zero) = none
deadline_of t (pos (suc n)) = some (record { tv_sec = t.tv_sec + suc n; tv_nsec = t.tv_nsec })
deadline_of t (negsuc n) = none

-- The last waitpid, if the loop left the child to it: none when it does not return.
reap_by : Option Status → Capture → Option Capture
unfolding exit_code_of
reap_by none c = none
reap_by (some status) c =
    some record { out = c.out; err = c.err; code = exit_code_of status c.code }

pub reap : (Bool → Option Status) → Ended → Option Capture
unfolding reap_by
reap status e = if e.child_done then some e.capture else reap_by (status e.killed) e.capture

abbrev pub not_started : Files → Finished
not_started files = record {
  ret = err_system;
  result = result_of fresh;
  files = files;
  spawned = none;
}

finish_reaped : Files → List Bytes → LeoError → Option Capture → Option Finished
finish_reaped files argv ret none = none
finish_reaped files argv ret (some c) =
    some record { ret = ret; result = result_of c; files = files; spawned = some (argv, files) }

pub finish_child : Files → List Bytes → (Bool → Option Status) → Option Ended → Option Finished
unfolding reap finish_reaped
finish_child files argv status none = none
finish_child files argv status (some e) = finish_reaped files argv e.ret (reap status e)

-- `_run_child`: none when the loop is not over after the child's rounds, or the last
-- waitpid does not return.
pub run_child : Kernel → Files → List Bytes → List Bytes → ℤ → Option Finished
unfolding run_loop deadline_of finish_child
run_child k files argv env timeout_secs =
    let child = k.child files argv env in
    if not k.pipes
    then some (not_started files)
    else if not k.forks
    then some (not_started files)
    else finish_child files argv child.status
        (run_loop (deadline_of child.start timeout_secs) child.rounds fresh)

-- A call has started no child, or has watched one.
abbrev pub watched : Kernel → Files → List Bytes → List Bytes → ℤ → Option Ended
watched k files argv env timeout_secs =
    let child = k.child files argv env in
    run_loop (deadline_of child.start timeout_secs) child.rounds fresh

pub run_child-cases :
    (k : Kernel) (files : Files) (argv env : List Bytes) (t : ℤ)
    → (run_child k files argv env t ≡ some (not_started files))
      ⊎ (run_child k files argv env t
          ≡ finish_child files argv (k.child files argv env).status (watched k files argv env t))
unfolding run_child
run_child-cases k files argv env t = elim (Bool-cases k.pipes) [
  | inr fails ↦ inl (rw fails refl)
  | inl piped ↦ elim (Bool-cases k.forks) [
    | inr fails ↦ inl (rw (piped, fails) refl)
    | inl forked ↦ inr (rw (piped, forked) refl)
  ]
]
