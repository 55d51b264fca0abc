-- ===== src/LinuxExec.antt =====
-- agent/platform/linux/executor_linux.c: a program runs in a child process, with its two output
-- streams in pipes. What the clock, select, read and waitpid say is a list of rounds, one for each
-- turn of the loop.
pub mod Process
pub mod Output
pub mod Deadline
pub mod Tests
use leo_one.Prelude.{
  leb, ◌==◌, if◌then◌else◌, length, take, Bytes, bytes, str_eq, ℕ, zero, suc, ◌+◌, ◌-◌, ◌*◌, ◌/◌,
  Bool, true, false, ◌||◌, Option, none, some, List, [], ◌∷◌, ◌++◌,
}
use leo_one.Prelude.Int.{ℤ, pos, negsuc}
use leo_one.Types.{LeoError, ok, err_system, err_timeout}

-- `ALLOWED_INTERPRETERS`
abbrev pub allowed_interpreters : List Bytes
allowed_interpreters =
    bytes "bash" ∷ bytes "sh" ∷ bytes "python3" ∷ bytes "python" ∷ bytes "python2" ∷ []

pub any_eq : Bytes → List Bytes → Bool
any_eq interp [] = false
any_eq interp (name ∷ names) = str_eq interp name || any_eq interp names

-- `_interpreter_allowed`
pub interpreter_allowed : Bytes → Bool
unfolding any_eq
interpreter_allowed interp = any_eq interp allowed_interpreters

-- struct timespec
pub record Timespec : Type 0 where
  pub tv_sec : ℕ
  pub tv_nsec : ℕ

-- What waitpid says of a child that is gone.
pub data Status : Type 0 where
  exited : ℕ → Status
  signaled : ℕ → Status
  other_status : Status

-- `waitpid(child, &status, WNOHANG)`: still running, or gone, with what the two last reads give.
pub data Wait : Type 0 where
  running : Wait
  gone : Status → Bytes → Bytes → Wait

-- What select says: interrupted by a signal, failed, out of time, or ready, with what a read of each
-- stream that is ready would give, and with what waitpid says then. A read that fails gives nothing.
pub data Select : Type 0 where
  select_interrupted : Select
  select_failed : Select
  select_expired : Select
  select_ready : Option Bytes → Option Bytes → Wait → Select

-- A turn of the loop: the clock, then select.
pub record Round : Type 0 where
  pub now : Timespec
  pub select : Select

-- The two buffers, up to their offsets, and `exit_code`.
pub record Capture : Type 0 where
  pub out : Bytes
  pub err : Bytes
  pub code : ℤ

-- LEO_EXEC_STDOUT_MAX and LEO_EXEC_STDERR_MAX
abbrev pub stdout_max : ℕ
stdout_max = 16384

abbrev pub stderr_max : ℕ
stderr_max = 4096

-- `_drain_fd`, on what the pipe holds: at most as much is read as fits in front of the terminator.
pub drain : ℕ → Bytes → Bytes → Bytes
drain room chunk buf =
    if leb (room - 1) (length buf) then buf else buf ++ take (room - 1 - length buf) chunk

drain_if : ℕ → Option Bytes → Bytes → Bytes
unfolding drain
drain_if room none buf = buf
drain_if room (some chunk) buf = drain room chunk buf

-- `WEXITSTATUS`, or the signal's number with a minus
pub exit_code_of : Status → ℤ → ℤ
exit_code_of (exited n) old = pos n
exit_code_of (signaled zero) old = pos 0
exit_code_of (signaled (suc n)) old = negsuc n
exit_code_of other_status old = old

-- How the loop ended: `ret`, `child_done`, and whether the child was sent SIGKILL.
pub record Ended : Type 0 where
  pub ret : LeoError
  pub child_done : Bool
  pub killed : Bool
  pub capture : Capture

-- `remain_ms`, where 0 stands for all that is not positive. One of the two differences of
-- nanoseconds is 0, so that each is rounded as C rounds it.
pub remain_ms : Timespec → Timespec → ℕ
remain_ms deadline now =
    deadline.tv_sec * 1000
    + (deadline.tv_nsec - now.tv_nsec) / 1000000
    - (now.tv_sec * 1000 + (now.tv_nsec - deadline.tv_nsec) / 1000000)

-- `remain_ms <= 0`, if there is a deadline.
pub is_late : Option Timespec → Timespec → Bool
unfolding remain_ms
is_late none now = false
is_late (some deadline) now = remain_ms deadline now == 0

abbrev pub timed_out : Capture → Ended
timed_out c = record { ret = err_timeout; child_done = false; killed = true; capture = c }

abbrev pub broken : Capture → Ended
broken c = record { ret = err_system; child_done = false; killed = false; capture = c }

-- Both streams are read, if they are ready.
pub drain_both : Option Bytes → Option Bytes → Capture → Capture
unfolding drain_if
drain_both out err c = record {
  out = drain_if stdout_max out c.out;
  err = drain_if stderr_max err c.err;
  code = c.code;
}

-- The child is gone: the last reads, and its exit code.
pub child_gone : Status → Bytes → Bytes → Capture → Ended
unfolding drain_both exit_code_of
child_gone status out err c =
    let last = drain_both (some out) (some err) c in
    record {
      ret = ok;
      child_done = true;
      killed = false;
      capture = record { out = last.out; err = last.err; code = exit_code_of status last.code };
    }

pub by_wait : (Capture → Option Ended) → Wait → Capture → Option Ended
unfolding child_gone
by_wait again running c = again c
by_wait again (gone status out err) c = some (child_gone status out err c)

pub by_select : (Capture → Option Ended) → Select → Capture → Option Ended
unfolding by_wait drain_both
by_select again select_interrupted c = again c
by_select again select_failed c = some (broken c)
by_select again select_expired c = some (timed_out c)
by_select again (select_ready out err wait) c = by_wait again wait (drain_both out err c)

-- A turn of the loop, with the turns after it.
pub turn : Option Timespec → Round → (Capture → Option Ended) → Capture → Option Ended
unfolding is_late by_select
turn deadline r again c =
    if is_late deadline r.now then some (timed_out c) else by_select again r.select c

-- The loop `while (!child_done)`: none when it is not over after these rounds.
pub run_loop : Option Timespec → List Round → Capture → Option Ended
unfolding turn
run_loop deadline [] c = none
run_loop deadline (r ∷ rounds) c = turn deadline r (λ c'. run_loop deadline rounds c') c
