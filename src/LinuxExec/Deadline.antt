-- ===== src/LinuxExec/Deadline.antt =====
-- agent/platform/linux/executor_linux.c: a child with a timeout is not waited for behind its deadline.
use mathlib.Core.Path.{subst}
use leo_one.Prelude.{
  Bool-cases, ◌≡◌, refl, ◌⊎◌, inl, inr, true, false, Option, none, some, List, [], ◌∷◌,
}
use leo_one.Types.{ok, err_system, err_timeout}
use leo_one.LinuxExec.{
  Timespec, running, gone, Select, select_interrupted, select_failed, select_expired, select_ready,
  Round, Capture, Ended, is_late, timed_out, broken, drain_both, child_gone, by_wait, by_select,
  turn, run_loop,
}

-- Some round begins when the deadline has passed.
abbrev pub Passes : Option Timespec → List Round → Type 0
Passes deadline [] = ⊥
Passes deadline (r ∷ rounds) = (is_late deadline r.now ≡ true) ⊎ Passes deadline rounds

abbrev pub Ends : (Capture → Option Ended) → Type 0
Ends again = (c : Capture) → (e : Ended) × (again c ≡ some e)

by_select-Ends :
    (again : Capture → Option Ended) (s : Select) → Ends again → Ends (by_select again s)
unfolding by_select by_wait
by_select-Ends again select_interrupted k c = k c
by_select-Ends again select_failed k c = (broken c, refl)
by_select-Ends again select_expired k c = (timed_out c, refl)
by_select-Ends again (select_ready o e running) k c = k (drain_both o e c)
by_select-Ends again (select_ready o e (gone status lo le)) k c =
    (child_gone status lo le (drain_both o e c), refl)

-- Whatever the child does and select says, the loop ends in the first round, if not before, that
-- begins when the deadline has passed.
pub run_loop-Passes :
    (deadline : Option Timespec) (rounds : List Round)
    → Passes deadline rounds
    → (c : Capture) → (e : Ended) × (run_loop deadline rounds c ≡ some e)
unfolding run_loop turn
run_loop-Passes deadline [] h c = absurd h
run_loop-Passes deadline (r ∷ rounds) h c = elim (Bool-cases (is_late deadline r.now)) [
  | inl late ↦ (timed_out c, rw late refl)
  | inr early ↦
      let rest : Passes deadline rounds = elim h [ inl late ↦ absurd cc | inr later ↦ later ] in
      rw early (
        by_select-Ends (run_loop deadline rounds) r.select (run_loop-Passes deadline rounds rest) c)
]

-- How an end of the loop came about: a success has seen the child go, an error has not, and a child
-- that ran out of time has been sent SIGKILL.
abbrev pub IsSound : Ended → Type 0
IsSound e =
    ((e.ret ≡ ok) × (e.child_done ≡ true) × (e.killed ≡ false))
    ⊎ (((e.ret ≡ err_timeout) × (e.child_done ≡ false) × (e.killed ≡ true))
        ⊎ ((e.ret ≡ err_system) × (e.child_done ≡ false) × (e.killed ≡ false)))

abbrev SoundIf : Option Ended → Type 0
SoundIf none = Unit
SoundIf (some e) = IsSound e

by_select-SoundIf :
    (again : Capture → Option Ended) (s : Select) (c : Capture)
    → ((c' : Capture) → SoundIf (again c'))
    → SoundIf (by_select again s c)
unfolding by_select by_wait child_gone
by_select-SoundIf again select_interrupted c k = k c
by_select-SoundIf again select_failed c k = inr (inr (refl, refl, refl))
by_select-SoundIf again select_expired c k = inr (inl (refl, refl, refl))
by_select-SoundIf again (select_ready o e running) c k = k (drain_both o e c)
by_select-SoundIf again (select_ready o e (gone status lo le)) c k = inl (refl, refl, refl)

run_loop-SoundIf :
    (deadline : Option Timespec) (rounds : List Round) (c : Capture)
    → SoundIf (run_loop deadline rounds c)
unfolding run_loop turn
run_loop-SoundIf deadline [] c = tt
run_loop-SoundIf deadline (r ∷ rounds) c = elim (Bool-cases (is_late deadline r.now)) [
  | inl late ↦ rw late (inr (inl (refl, refl, refl)))
  | inr early ↦
      rw early
        (by_select-SoundIf (run_loop deadline rounds) r.select c (run_loop-SoundIf deadline rounds))
]

-- The loop reports a success only of a child that it has seen go, kills only a child whose time is over,
-- and has no other results than these two and an error of select.
pub run_loop-IsSound :
    (deadline : Option Timespec) (rounds : List Round) (c : Capture) (e : Ended)
    → run_loop deadline rounds c ≡ some e
    → IsSound e
run_loop-IsSound deadline rounds c e h = subst SoundIf h (run_loop-SoundIf deadline rounds c)
