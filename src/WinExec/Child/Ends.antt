-- ===== src/WinExec/Child/Ends.antt =====
-- agent/platform/windows/executor_win.c: when `_run_child` returns, and what it says then.
use leo_one.Prelude.{
  if_both, take, Bytes, ℕ, ◌-◌, ◌≡◌, refl, ap, ◌↔◌, ◌⊎◌, inl, inr, Bool, true, false, not, ◌||◌,
  Option, none, some, List, [],
}
use leo_one.Prelude.Int.{ℤ}
use leo_one.Types.{err_timeout}
use leo_one.LinuxExec.{stdout_max, stderr_max}
use leo_one.WinExec.Environment.{build_env_block}
use leo_one.WinExec.Child.{
  Files, Stream, Waited, wait_object, wait_timeout, wait_failed, Process, Windows, Finished, joined,
  ret_of, wait_ms, int_of, not_started, finish, watch, run_child,
}
use leo_one.WinExec.Child.Output.{given, reader_thread_lem}

-- A buffer without its thread is empty; with it, it holds what the pipe gave, up to its size.
abbrev pub captured : Bool → ℕ → Stream → Bytes
captured false buf_max s = []
captured true buf_max s = take (buf_max - 1) (given s.chunks)

-- The pipe of a thread is closed in the end.
abbrev pub Closes : Bool → Stream → Type 0
Closes b s = b ≡ true → s.closes ≡ true

joined-Closes :
    (b : Bool) (buf_max : ℕ) (s : Stream)
    → Closes b s
    → joined b buf_max s ≡ some (captured b buf_max s)
unfolding joined
joined-Closes false buf_max s h = refl
joined-Closes true buf_max s h = rw (h refl) (ap some (reader_thread_lem buf_max s.chunks))

timeout_iff : (o : Waited) → (ret_of o ≡ err_timeout) ↔ (o ≡ wait_timeout)
unfolding ret_of
timeout_iff wait_object = (λ h. cc, λ h. cc)
timeout_iff wait_timeout = (λ _. refl, λ _. refl)
timeout_iff wait_failed = (λ h. cc, λ h. cc)

-- A process that was started and closes its pipes: the call returns, says LEO_ERR_TIMEOUT exactly if the
-- wait ran out of time, and each buffer holds the beginning of what its pipe gave, up to its size
-- less one.
pub run_child-Closes :
    (w : Windows) (files : Files) (cmdline : Bytes) (extra_env : List Bytes) (t : ℤ) (p : Process)
    → w.out_pipe ≡ true
    → w.err_pipe ≡ true
    → w.create_process cmdline (build_env_block w.environment w.allocates extra_env) files ≡ some p
    → Closes p.out_thread p.out
    → Closes p.err_thread p.err
    → (f : Finished) × (run_child w files cmdline extra_env t ≡ some f)
      × ((f.ret ≡ err_timeout) ↔ (p.wait (wait_ms t) ≡ wait_timeout))
      × (f.result.stdout_buf ≡ captured p.out_thread stdout_max p.out)
      × (f.result.stderr_buf ≡ captured p.err_thread stderr_max p.err)
unfolding run_child watch finish
run_child-Closes w files cmdline extra_env t p piped_out piped_err started out_ends err_ends =
    let out = captured p.out_thread stdout_max p.out in
    let err = captured p.err_thread stderr_max p.err in
    (
      record {
        ret = ret_of (p.wait (wait_ms t));
        result = record { exit_code = int_of p.exit_code; stdout_buf = out; stderr_buf = err };
        files = files;
        spawned = some (cmdline, files);
      },
      rw
          (
            piped_out,
            piped_err,
            started,
            joined-Closes p.out_thread stdout_max p.out out_ends,
            joined-Closes p.err_thread stderr_max p.err err_ends,
          )
          refl,
      timeout_iff (p.wait (wait_ms t)),
      refl,
      refl,
    )

-- With a thread whose pipe some process keeps open, as a child of the child may, the call does not
-- return, whatever the deadline.
pub run_child-stuck :
    (w : Windows) (files : Files) (cmdline : Bytes) (extra_env : List Bytes) (t : ℤ) (p : Process)
    → w.out_pipe ≡ true
    → w.err_pipe ≡ true
    → w.create_process cmdline (build_env_block w.environment w.allocates extra_env) files ≡ some p
    → p.out_thread ≡ true
    → p.out.closes ≡ false
    → run_child w files cmdline extra_env t ≡ none
unfolding run_child watch finish joined
run_child-stuck w files cmdline extra_env t p piped_out piped_err started thread open_pipe =
    rw (piped_out, piped_err, started, thread, open_pipe) refl

-- What a call that returns leaves: the files as they are, and at most its own command line started.
abbrev pub Leaves : Bytes → Files → Option Finished → Type 0
Leaves cmdline files none = Unit
Leaves cmdline files (some f) =
    (f.files ≡ files) × ((f.spawned ≡ none) ⊎ (f.spawned ≡ some (cmdline, files)))

finish-Leaves :
    (cmdline : Bytes) (files : Files) (p : Process) (t : ℤ) (out err : Option Bytes)
    → Leaves cmdline files (finish cmdline files p t out err)
unfolding finish
finish-Leaves cmdline files p t none err = tt
finish-Leaves cmdline files p t (some out) none = tt
finish-Leaves cmdline files p t (some out) (some err) = (refl, inr refl)

watch-Leaves :
    (cmdline : Bytes) (files : Files) (t : ℤ) (o : Option Process)
    → Leaves cmdline files (watch cmdline files t o)
unfolding watch
watch-Leaves cmdline files t none = (refl, inl refl)
watch-Leaves cmdline files t (some p) =
    finish-Leaves cmdline files p t (joined p.out_thread stdout_max p.out)
      (joined p.err_thread stderr_max p.err)

pub run_child-Leaves :
    (w : Windows) (files : Files) (cmdline : Bytes) (extra_env : List Bytes) (t : ℤ)
    → Leaves cmdline files (run_child w files cmdline extra_env t)
unfolding run_child
run_child-Leaves w files cmdline extra_env t =
    if_both (Leaves cmdline files) (not w.out_pipe || not w.err_pipe) (some (not_started files))
      (watch cmdline files t
        (w.create_process cmdline (build_env_block w.environment w.allocates extra_env) files))
      (refl, inl refl)
      (watch-Leaves cmdline files t
        (w.create_process cmdline (build_env_block w.environment w.allocates extra_env) files))
