-- ===== src/LinuxExec/Process/Script/Results.antt =====
-- agent/platform/linux/executor_linux.c: that `leo_exec_script` returns, and with what.
use mathlib.Core.Path.{subst}
use leo_one.Prelude.{
  Bool-cases, All, Bytes, str_eq_iff, ◌≡◌, refl, ◌≢◌, ◌↔◌, ap, ◌∙◌, ◌⊎◌, inl, inr, Bool, true,
  false, Option, none, some, List, [], ◌∷◌, arith,
}
use leo_one.Prelude.Int.{ℤ}
use leo_one.Types.{LeoError, err_protocol}
use leo_one.Agent.Exec.{ExecResult}
use leo_one.LinuxExec.Process.Script.{
  write_script_tmp, without_file, run_script_file, leo_exec_script,
}
use leo_one.LinuxExec.Process.{
  Files, Kernel, Finished, fresh, deadline_of, not_started, reap_by, reap, finish_reaped,
  finish_child, run_child, watched, run_child-cases,
}
use leo_one.LinuxExec.Deadline.{Passes, run_loop-Passes, IsSound, run_loop-IsSound}
use leo_one.LinuxExec.{
  Timespec, running, gone, select_interrupted, select_expired, select_ready, Round, Capture,
  drain_both, child_gone, by_wait, is_late, turn, by_select, run_loop, allowed_interpreters, any_eq,
  interpreter_allowed, Status, Select, select_failed, Ended,
}

-- No select of these rounds fails.
abbrev pub HasSelect : Round → Type 0
HasSelect r = r.select ≢ select_failed

-- The clock of every child that could be started goes past its deadline, its selects do not fail, and
-- once it is sent SIGKILL a waitpid that blocks returns.
abbrev pub ClockGoesOn : Kernel → ℤ → Type 0
ClockGoesOn k t =
    (files : Files) (argv env : List Bytes)
    → Passes (deadline_of (k.child files argv env).start t) (k.child files argv env).rounds
      × All HasSelect (k.child files argv env).rounds
      × ((status : Status) × ((k.child files argv env).status true ≡ some status))

abbrev Returns : Option Finished → Type 0
Returns o = (f : Finished) × (o ≡ some f)

-- A child that was seen to go, or that was sent SIGKILL.
abbrev IsOver : Option Ended → Type 0
IsOver none = Unit
IsOver (some e) = (e.child_done ≡ true) ⊎ ((e.child_done ≡ false) × (e.killed ≡ true))

by_select-IsOver :
    (again : Capture → Option Ended) (s : Select) (c : Capture)
    → s ≢ select_failed
    → ((c' : Capture) → IsOver (again c'))
    → IsOver (by_select again s c)
unfolding by_select by_wait child_gone
by_select-IsOver again select_interrupted c n k = k c
by_select-IsOver again select_failed c n k = absurd (n refl)
by_select-IsOver again select_expired c n k = inr (refl, refl)
by_select-IsOver again (select_ready o e running) c n k = k (drain_both o e c)
by_select-IsOver again (select_ready o e (gone status lo le)) c n k = inl refl

run_loop-IsOver :
    (deadline : Option Timespec) (rounds : List Round) (c : Capture)
    → All HasSelect rounds
    → IsOver (run_loop deadline rounds c)
unfolding run_loop turn
run_loop-IsOver deadline [] c h = tt
run_loop-IsOver deadline (r ∷ rounds) c h = elim (Bool-cases (is_late deadline r.now)) [
  | inl late ↦ rw late (inr (refl, refl))
  | inr early ↦ rw early (
      by_select-IsOver (run_loop deadline rounds) r.select c h.0
        (λ c'. run_loop-IsOver deadline rounds c' h.1))
]

finish_child-Returns :
    (files : Files) (argv : List Bytes) (status : Bool → Option Status) (e : Ended)
    → IsOver (some e)
    → (s : Status) × (status true ≡ some s)
    → Returns (finish_child files argv status (some e))
unfolding finish_child reap reap_by finish_reaped
finish_child-Returns files argv status e (inl done) reaped = rw done (_, refl)
finish_child-Returns files argv status e (inr (left, killed)) (s, reaped) =
    rw (left, killed, reaped) (_, refl)

run_child-Returns :
    (k : Kernel) (files : Files) (argv env : List Bytes) (t : ℤ)
    → ClockGoesOn k t
    → Returns (run_child k files argv env t)
run_child-Returns k files argv env t h = elim (run_child-cases k files argv env t) [
  | inl fails ↦ (not_started files, fails)
  | inr started ↦
      let child = k.child files argv env in
      let (passes, selects, reaped) = h files argv env in
      let (e, ended) = run_loop-Passes (deadline_of child.start t) child.rounds passes fresh in
      let over : IsOver (some e) =
        subst IsOver ended
          (run_loop-IsOver (deadline_of child.start t) child.rounds fresh selects) in
      let (f, finished) = finish_child-Returns files argv child.status e over reaped in
      (f, started ∙ ap (finish_child files argv child.status) ended ∙ finished)
]

without_file-Returns :
    (path : Bytes) (o : Option Finished) → Returns o → Returns (without_file path o)
unfolding without_file
without_file-Returns path none h = absurd cc
without_file-Returns path (some f) h = (_, refl)

run_script_file-Returns :
    (k : Kernel) (interpreter : Bytes) (t : ℤ) (old : ExecResult) (file : Option Bytes × Files)
    → ClockGoesOn k t
    → Returns (run_script_file k interpreter t old file)
unfolding run_script_file
run_script_file-Returns k interpreter t old (none, files) h = (_, refl)
run_script_file-Returns k interpreter t old (some path, files) h =
    without_file-Returns path (run_child k files (interpreter ∷ path ∷ []) [] t)
      (run_child-Returns k files (interpreter ∷ path ∷ []) [] t h)

-- If the clock goes on past the deadline, no select fails, and a child that is sent SIGKILL is reaped,
-- then the call returns, whatever the script does.
pub leo_exec_script-ClockGoesOn :
    (k : Kernel) (files : Files) (interpreter script : Bytes) (t : ℤ) (old : ExecResult)
    → ClockGoesOn k t
    → (f : Finished) × (leo_exec_script k files interpreter script t old ≡ some f)
unfolding leo_exec_script
leo_exec_script-ClockGoesOn k files interpreter script t old h =
    elim (Bool-cases (interpreter_allowed interpreter)) [
      | inl allowed ↦
          rw allowed
            (run_script_file-Returns k interpreter t old (write_script_tmp k script files) h)
      | inr other ↦ rw other (_, refl)
    ]

-- Results that do not say that the interpreter is refused.
abbrev Accepts : Option Finished → Type 0
Accepts none = Unit
Accepts (some f) = f.ret ≢ err_protocol

IsSound-ret : (e : Ended) → IsSound e → e.ret ≢ err_protocol
IsSound-ret e (inl h) = λ p. cc
IsSound-ret e (inr (inl h)) = λ p. cc
IsSound-ret e (inr (inr h)) = λ p. cc

finish_reaped-Accepts :
    (files : Files) (argv : List Bytes) (ret : LeoError) (c : Option Capture)
    → ret ≢ err_protocol
    → Accepts (finish_reaped files argv ret c)
unfolding finish_reaped
finish_reaped-Accepts files argv ret none h = tt
finish_reaped-Accepts files argv ret (some c) h = h

finish_child-Accepts :
    (files : Files) (argv : List Bytes) (status : Bool → Option Status) (o : Option Ended)
    → ((e : Ended) → o ≡ some e → IsSound e)
    → Accepts (finish_child files argv status o)
unfolding finish_child
finish_child-Accepts files argv status none h = tt
finish_child-Accepts files argv status (some e) h =
    finish_reaped-Accepts files argv e.ret (reap status e) (IsSound-ret e (h e refl))

run_child-Accepts :
    (k : Kernel) (files : Files) (argv env : List Bytes) (t : ℤ)
    → Accepts (run_child k files argv env t)
run_child-Accepts k files argv env t = elim (run_child-cases k files argv env t) [
  | inl fails ↦ rw fails (λ p. cc)
  | inr started ↦
      let child = k.child files argv env in
      rw started (
        finish_child-Accepts files argv child.status (watched k files argv env t)
          (run_loop-IsSound (deadline_of child.start t) child.rounds fresh))
]

without_file-Accepts :
    (path : Bytes) (o : Option Finished) → Accepts o → Accepts (without_file path o)
unfolding without_file
without_file-Accepts path none h = tt
without_file-Accepts path (some f) h = h

run_script_file-Accepts :
    (k : Kernel) (interpreter : Bytes) (t : ℤ) (old : ExecResult) (file : Option Bytes × Files)
    → Accepts (run_script_file k interpreter t old file)
unfolding run_script_file
run_script_file-Accepts k interpreter t old (none, files) = λ p. cc
run_script_file-Accepts k interpreter t old (some path, files) =
    without_file-Accepts path (run_child k files (interpreter ∷ path ∷ []) [] t)
      (run_child-Accepts k files (interpreter ∷ path ∷ []) [] t)

any_eq-All : (s : Bytes) (names : List Bytes) → (any_eq s names ≡ false) ↔ All (λ n. s ≢ n) names
unfolding any_eq
any_eq-All s [] = (λ h. tt, λ h. refl)
any_eq-All s (n ∷ names) = ground (arith, str_eq_iff s n, any_eq-All s names)

abbrev RetFor : Bool → Option Finished → Type 0
RetFor allowed none = Unit
RetFor allowed (some f) = (f.ret ≡ err_protocol) ↔ (allowed ≡ false)

Accepts-RetFor : (o : Option Finished) → Accepts o → RetFor true o
Accepts-RetFor none h = tt
Accepts-RetFor (some f) h = (λ e. absurd (h e), λ e. absurd cc)

leo_exec_script-RetFor :
    (k : Kernel) (files : Files) (interpreter script : Bytes) (t : ℤ) (old : ExecResult)
    → RetFor (interpreter_allowed interpreter) (leo_exec_script k files interpreter script t old)
unfolding leo_exec_script
leo_exec_script-RetFor k files interpreter script t old =
    elim (Bool-cases (interpreter_allowed interpreter)) [
      | inl allowed ↦ rw allowed (
          Accepts-RetFor (run_script_file k interpreter t old (write_script_tmp k script files))
            (run_script_file-Accepts k interpreter t old (write_script_tmp k script files)))
      | inr other ↦ rw other (λ e. refl, λ e. refl)
    ]

-- A call that returns says LEO_ERR_PROTOCOL exactly for an interpreter that is none of the five that
-- the list names.
pub leo_exec_script-err_protocol :
    (k : Kernel) (files : Files) (interpreter script : Bytes) (t : ℤ) (old : ExecResult)
    (f : Finished)
    → leo_exec_script k files interpreter script t old ≡ some f
    → (f.ret ≡ err_protocol) ↔ All (λ n. interpreter ≢ n) allowed_interpreters
leo_exec_script-err_protocol k files interpreter script t old f h =
    let by_test =
      subst (RetFor (interpreter_allowed interpreter)) h
        (leo_exec_script-RetFor k files interpreter script t old) in
    let by_name : (interpreter_allowed interpreter ≡ false)
        ↔ All (λ n. interpreter ≢ n) allowed_interpreters =
      unfold interpreter_allowed in any_eq-All interpreter allowed_interpreters in
    (λ e. by_name.0 (by_test.0 e), λ e. by_test.1 (by_name.1 e))
