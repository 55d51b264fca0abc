-- ===== src/LinuxExec/Output.antt =====
-- agent/platform/linux/executor_linux.c: the two output buffers hold the beginning of what the child
-- wrote, within their sizes.
use mathlib.Core.Path.{subst}
use leo_one.Prelude.{
  leb, Bool-cases, length, if◌then◌else◌, take, take-append_split, Bytes, ℕ, suc, ◌-◌, ◌≡◌, refl,
  sym, ap, ◌∙◌, inl, inr, Option, none, some, List, [], ◌∷◌, ◌++◌, append-nil, append_assoc, arith,
}
use leo_one.LinuxExec.{
  Timespec, Wait, running, gone, Select, select_interrupted, select_failed, select_expired,
  select_ready, Round, Capture, stdout_max, stderr_max, drain, drain_if, Ended, is_late, timed_out,
  broken, drain_both, child_gone, by_wait, by_select, turn, run_loop,
}
use leo_one.Prelude.Int.{ℤ}

-- What the pipe of one stream gives in a turn, then in all turns.
abbrev pub chunk : Option Bytes → Bytes
chunk none = []
chunk (some c) = c

module _ (ready : Select → Bytes) where
  abbrev pub all_chunks : List Round → Bytes
  all_chunks [] = []
  all_chunks (r ∷ rounds) = ready r.select ++ all_chunks rounds

abbrev pub wait_out : Wait → Bytes
wait_out running = []
wait_out (gone status out err) = out

abbrev pub wait_err : Wait → Bytes
wait_err running = []
wait_err (gone status out err) = err

abbrev pub select_out : Select → Bytes
select_out (select_ready out err wait) = chunk out ++ wait_out wait
select_out _ = []

abbrev pub select_err : Select → Bytes
select_err (select_ready out err wait) = chunk err ++ wait_err wait
select_err _ = []

-- A buffer of `room` bytes that holds the beginning of `text`.
abbrev pub Holds : ℕ → Bytes → Bytes → Type 0
Holds room text buf = buf ≡ take (room - 1) text

drain_by_take :
    (room : ℕ) (piece buf : Bytes)
    → drain room piece buf ≡ buf ++ take (room - 1 - length buf) piece
unfolding drain
drain_by_take room piece buf = elim (Bool-cases (leb (room - 1) (length buf))) [
  | inl full ↦
      let e : room - 1 - length buf ≡ 0 = ground arith in
      rw full (sym (ap (λ k. buf ++ take k piece) e ∙ append-nil buf))
  | inr free ↦ rw free refl
]

drain-Holds :
    (room : ℕ) (text piece buf : Bytes)
    → Holds room text buf
    → Holds room (text ++ piece) (drain room piece buf)
drain-Holds room text piece buf h =
    drain_by_take room piece buf
    ∙ ap (λ b. b ++ take (room - 1 - length b) piece) h
    ∙ sym (take-append_split (room - 1) text piece)

drain_if-Holds :
    (room : ℕ) (text : Bytes) (piece : Option Bytes) (buf : Bytes)
    → Holds room text buf
    → Holds room (text ++ chunk piece) (drain_if room piece buf)
unfolding drain_if
drain_if-Holds room text none buf h = h ∙ ap (take (room - 1)) (sym (append-nil text))
drain_if-Holds room text (some piece) buf h = drain-Holds room text piece buf h

-- Both buffers hold the beginnings of what has been written.
abbrev pub BothHold : Bytes → Bytes → Capture → Type 0
BothHold out err c = Holds stdout_max out c.out × Holds stderr_max err c.err

drain_both-BothHold :
    (out err : Bytes) (o e : Option Bytes) (c : Capture)
    → BothHold out err c
    → BothHold (out ++ chunk o) (err ++ chunk e) (drain_both o e c)
unfolding drain_both
drain_both-BothHold out err o e c h =
    (drain_if-Holds stdout_max out o c.out h.0, drain_if-Holds stderr_max err e c.err h.1)

-- How many rounds the loop reads the pipes in: up to the first that begins behind the deadline, and with
-- the first whose select fails, runs out of time, or finds that the child is gone.
abbrev pub rounds_after : Select → ℕ → ℕ
rounds_after select_interrupted later = later
rounds_after (select_ready out err running) later = later
rounds_after _ later = 0

abbrev pub rounds_read : Option Timespec → List Round → ℕ
rounds_read deadline [] = 0
rounds_read deadline (r ∷ rounds) =
    if is_late deadline r.now then 0 else suc (rounds_after r.select (rounds_read deadline rounds))

-- The loop, if it ended, did so with the beginnings of what `n` rounds gave behind `out` and `err`.
abbrev pub EndsWith : Bytes → Bytes → ℕ → List Round → Option Ended → Type 0
EndsWith out err n rounds none = Unit
EndsWith out err n rounds (some e) =
    BothHold (out ++ all_chunks select_out (take n rounds))
      (err ++ all_chunks select_err (take n rounds)) e.capture

EndsWith-now :
    (out err : Bytes) (rounds : List Round) (e : Ended)
    → BothHold out err e.capture
    → EndsWith out err 0 rounds (some e)
EndsWith-now out err rounds e h = (
  h.0 ∙ ap (take (stdout_max - 1)) (sym (append-nil out)),
  h.1 ∙ ap (take (stderr_max - 1)) (sym (append-nil err)),
)

EndsWith-later :
    (out err : Bytes) (r : Round) (n : ℕ) (rounds : List Round) (e : Option Ended)
    → EndsWith (out ++ select_out r.select) (err ++ select_err r.select) n rounds e
    → EndsWith out err (suc n) (r ∷ rounds) e
EndsWith-later out err r n rounds none h = tt
EndsWith-later out err r n rounds (some e) h = (
  h.0
      ∙ ap (take (stdout_max - 1))
          (append_assoc out (select_out r.select) (all_chunks select_out (take n rounds))),
  h.1
      ∙ ap (take (stderr_max - 1))
          (append_assoc err (select_err r.select) (all_chunks select_err (take n rounds))),
)

-- The turns after a given one keep the promise.
abbrev pub Continues : ℕ → List Round → (Capture → Option Ended) → Type 0
Continues n rounds again =
    (out err : Bytes) (c : Capture) → BothHold out err c → EndsWith out err n rounds (again c)

BothHold-eq :
    {out out' err err' : Bytes} (c : Capture)
    → out ≡ out'
    → err ≡ err'
    → BothHold out err c
    → BothHold out' err' c
BothHold-eq c p q h = (h.0 ∙ ap (take (stdout_max - 1)) p, h.1 ∙ ap (take (stderr_max - 1)) q)

by_wait-EndsWith :
    (again : Capture → Option Ended) (n : ℕ) (rounds : List Round) (o e : Option Bytes) (w : Wait)
    (out err : Bytes) (c : Capture)
    → Continues n rounds again
    → BothHold (out ++ chunk o) (err ++ chunk e) c
    → EndsWith
        (out ++ (chunk o ++ wait_out w))
        (err ++ (chunk e ++ wait_err w))
        (rounds_after (select_ready o e w) n)
        rounds
        (by_wait again w c)
unfolding by_wait
by_wait-EndsWith again n rounds o e running out err c k h =
    k (out ++ (chunk o ++ [])) (err ++ (chunk e ++ [])) c (
      BothHold-eq c (ap (◌++◌ out) (sym (append-nil (chunk o))))
        (ap (◌++◌ err) (sym (append-nil (chunk e)))) h)
by_wait-EndsWith again n rounds o e (gone status last_o last_e) out err c k h =
    EndsWith-now (out ++ (chunk o ++ last_o)) (err ++ (chunk e ++ last_e)) rounds
      (child_gone status last_o last_e c)
      (unfold child_gone in
        BothHold-eq (drain_both (some last_o) (some last_e) c) (append_assoc out (chunk o) last_o)
          (append_assoc err (chunk e) last_e)
          (drain_both-BothHold (out ++ chunk o) (err ++ chunk e) (some last_o) (some last_e) c h))

by_select-EndsWith :
    (again : Capture → Option Ended) (n : ℕ) (rounds : List Round) (s : Select) (out err : Bytes)
    (c : Capture)
    → Continues n rounds again
    → BothHold out err c
    → EndsWith
        (out ++ select_out s)
        (err ++ select_err s)
        (rounds_after s n)
        rounds
        (by_select again s c)
unfolding by_select
by_select-EndsWith again n rounds select_interrupted out err c k h =
    k (out ++ []) (err ++ []) c (BothHold-eq c (sym (append-nil out)) (sym (append-nil err)) h)
by_select-EndsWith again n rounds select_failed out err c k h =
    EndsWith-now (out ++ []) (err ++ []) rounds (broken c)
      (BothHold-eq c (sym (append-nil out)) (sym (append-nil err)) h)
by_select-EndsWith again n rounds select_expired out err c k h =
    EndsWith-now (out ++ []) (err ++ []) rounds (timed_out c)
      (BothHold-eq c (sym (append-nil out)) (sym (append-nil err)) h)
by_select-EndsWith again n rounds (select_ready o e w) out err c k h =
    by_wait-EndsWith again n rounds o e w out err (drain_both o e c) k
      (drain_both-BothHold out err o e c h)

turn-EndsWith :
    (deadline : Option Timespec) (r : Round) (again : Capture → Option Ended) (n : ℕ)
    (rounds : List Round)
    → Continues n rounds again
    → Continues
        (if is_late deadline r.now then 0 else suc (rounds_after r.select n))
        (r ∷ rounds)
        (turn deadline r again)
unfolding turn
turn-EndsWith deadline r again n rounds k out err c h = elim (Bool-cases (is_late deadline r.now)) [
  | inl late ↦ rw late (EndsWith-now out err (r ∷ rounds) (timed_out c) h)
  | inr early ↦ rw early (
      EndsWith-later out err r (rounds_after r.select n) rounds (by_select again r.select c)
        (by_select-EndsWith again n rounds r.select out err c k h))
]

run_loop-EndsWith :
    (deadline : Option Timespec) (rounds : List Round)
    → Continues (rounds_read deadline rounds) rounds (run_loop deadline rounds)
unfolding run_loop
run_loop-EndsWith deadline [] = λ out err c h. tt
run_loop-EndsWith deadline (r ∷ rounds) =
    turn-EndsWith deadline r (run_loop deadline rounds) (rounds_read deadline rounds) rounds
      (run_loop-EndsWith deadline rounds)

-- When the loop ends, each buffer holds exactly the first bytes, up to its size less one, of what its
-- stream gave in all the rounds in which the pipes were read: up to the first round that begins behind
-- the deadline, and with the first whose select fails, runs out of time, or finds that the child is gone.
pub run_loop_output :
    (deadline : Option Timespec) (rounds : List Round) (code : ℤ) (e : Ended)
    → run_loop deadline rounds (record { out = []; err = []; code = code }) ≡ some e
    → BothHold
        (all_chunks select_out (take (rounds_read deadline rounds) rounds))
        (all_chunks select_err (take (rounds_read deadline rounds) rounds))
        e.capture
run_loop_output deadline rounds code e h =
    subst (EndsWith [] [] (rounds_read deadline rounds) rounds) h (
      run_loop-EndsWith deadline rounds [] [] (record { out = []; err = []; code = code })
        (refl, refl))
