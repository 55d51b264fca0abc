-- ===== src/LinuxExec/Tests.antt =====
-- agent/platform/linux/executor_linux.c: children that print, end, or run for too long.
use leo_one.Prelude.{take, bytes, ℕ, ◌≡◌, refl, inl, inr, true, false, none, some, List, [], ◌∷◌}
use leo_one.Prelude.Int.{pos, negsuc}
use leo_one.Types.{ok}
use leo_one.LinuxExec.{
  Timespec, exited, running, gone, select_interrupted, select_expired, select_ready, Round, Capture,
  Ended, is_late, run_loop,
}
use leo_one.LinuxExec.Output.{
  all_chunks, select_out, select_err, BothHold, rounds_read, run_loop_output,
}
use leo_one.LinuxExec.Deadline.{run_loop-Passes, IsSound, run_loop-IsSound}

abbrev pub at : ℕ → Timespec
at sec = record { tv_sec = sec; tv_nsec = 0 }

-- It prints `ab`, then it is not heard of, then it prints `c` and ends with code 3.
abbrev pub printing : List Round
printing =
    (record { now = at 1; select = select_ready (some (bytes "ab")) none running })
    ∷ (record { now = at 2; select = select_interrupted })
    ∷ (record {
      now = at 3;
      select = select_ready none (some (bytes "e")) (gone (exited 3) (bytes "c") []);
    })
    ∷ (record { now = at 70; select = select_expired })
    ∷ []

abbrev nothing : Capture
nothing = record { out = []; err = []; code = negsuc 0 }

abbrev printed : Ended
printed = record {
  ret = ok;
  child_done = true;
  killed = false;
  capture = record { out = bytes "abc"; err = bytes "e"; code = pos 3 };
}

printed-run_loop : run_loop (some (at 60)) printing nothing ≡ some printed
unfolding run_loop
printed-run_loop = refl

run_loop_output_example :
    BothHold
      (all_chunks select_out (take (rounds_read (some (at 60)) printing) printing))
      (all_chunks select_err (take (rounds_read (some (at 60)) printing) printing))
      printed.capture
run_loop_output_example =
    run_loop_output (some (at 60)) printing (negsuc 0) printed printed-run_loop

run_loop-IsSound_example : IsSound printed
run_loop-IsSound_example = run_loop-IsSound (some (at 60)) printing nothing printed printed-run_loop

run_loop-Passes_example : (e : Ended) × (run_loop (some (at 60)) printing nothing ≡ some e)
run_loop-Passes_example =
    run_loop-Passes (some (at 60)) printing (inr (inr (inr (inl (unfold is_late in refl))))) nothing
