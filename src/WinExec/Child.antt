-- ===== src/WinExec/Child.antt =====
-- agent/platform/windows/executor_win.c: `_reader_thread` and `_run_child`.
pub mod Output
pub mod Ends
use leo_one.Prelude.{
  ltb, ◌==◌, if◌then◌else◌, length, take, Bytes, ℕ, zero, suc, ◌+◌, ◌-◌, ◌*◌, ◌%◌, ◌^◌, Bool, true,
  false, not, ◌&&◌, ◌||◌, Option, none, some, List, [], ◌∷◌, ◌++◌,
}
use leo_one.Prelude.Int.{ℤ, pos, negsuc, of_bits32}
use leo_one.Types.{LeoError, ok, err_system, err_timeout}
use leo_one.Agent.Exec.{ExecResult}
use leo_one.WinExec.Environment.{build_env_block}
-- `LEO_EXEC_STDOUT_MAX` and `LEO_EXEC_STDERR_MAX`
use leo_one.LinuxExec.{stdout_max, stderr_max}

-- Files by their paths.
abbrev pub Files : Type 0
Files = List (Bytes × Bytes)

-- A pipe: what each ReadFile gives, and whether every handle that writes to it is closed in the end,
-- without which the last ReadFile does not return.
pub record Stream : Type 0 where
  pub chunks : List Bytes
  pub closes : Bool

-- What WaitForSingleObject says.
pub data Waited : Type 0 where
  wait_object wait_timeout wait_failed : Waited

-- A process: whether the two threads can be made, what waiting for so many milliseconds says, what
-- stands in the pipes, and what GetExitCodeProcess gives.
pub record Process : Type 0 where
  pub out_thread : Bool
  pub err_thread : Bool
  pub wait : ℕ → Waited
  pub out : Stream
  pub err : Stream
  pub exit_code : Option ℕ

-- The operating system: the directory of temporary files with its last separator, none where
-- GetTempPathA fails; the numbers of the process, of the counter and of the clock as they stand in a
-- file's name; whether a path can be opened for writing, how many bytes fwrite takes, what fclose
-- leaves of them, and whether DeleteFileA succeeds; whether pipes can be made; the block of the environment, and whether malloc has room; and the process that a command
-- line starts in an environment among these files, if it can be started.
pub record Windows : Type 0 where
  pub temp_dir : Option Bytes
  pub unique : Bytes
  pub opens : Bytes → Bool
  pub fwrite : Bytes → ℕ
  pub fclose : Bytes → Bytes
  pub deletes : Bool
  pub out_pipe : Bool
  pub err_pipe : Bool
  pub environment : Option Bytes
  pub allocates : Bool
  pub create_process : Bytes → Option Bytes → Files → Option Process

-- What a call leaves: its result, the files, and the command line that it started, with the files that
-- the process could see.
pub record Finished : Type 0 where
  pub ret : LeoError
  pub result : ExecResult
  pub files : Files
  pub spawned : Option (Bytes × Files)

-- A turn of `_reader_thread`.
pub keep_chunk : ℕ → Bytes → Bytes → Bytes
keep_chunk buf_max buf chunk =
    if ltb (length buf) (buf_max - 1) then buf ++ take (buf_max - 1 - length buf) chunk else buf

-- `_reader_thread`: what its buffer holds at the end of the pipe.
pub reader_thread : ℕ → Bytes → List Bytes → Bytes
unfolding keep_chunk
reader_thread buf_max buf [] = buf
reader_thread buf_max buf ([] ∷ chunks) = buf
reader_thread buf_max buf ((c ∷ chunk) ∷ chunks) =
    reader_thread buf_max (keep_chunk buf_max buf (c ∷ chunk)) chunks

-- The buffer behind `pthread_join`, which returns at the end of the pipe; empty without a thread.
pub joined : Bool → ℕ → Stream → Option Bytes
unfolding reader_thread
joined false buf_max s = some []
joined true buf_max s = if s.closes then some (reader_thread buf_max [] s.chunks) else none

-- `INFINITE`
abbrev pub infinite : ℕ
infinite = 4294967295

pub wait_ms : ℤ → ℕ
wait_ms (pos zero) = infinite
wait_ms (pos (suc n)) = suc n * 1000 % 2 ^ 32
wait_ms (negsuc n) = infinite

-- The 5000 ms behind TerminateProcess change nothing but the time.
pub ret_of : Waited → LeoError
ret_of wait_object = ok
ret_of wait_timeout = err_timeout
ret_of wait_failed = ok

-- `(int)exit_code`, which starts as 0
pub int_of : Option ℕ → ℤ
int_of none = pos 0
int_of (some n) = of_bits32 (n % 2 ^ 32)

pub finish : Bytes → Files → Process → ℤ → Option Bytes → Option Bytes → Option Finished
unfolding ret_of wait_ms int_of
finish cmdline files p timeout_secs none err = none
finish cmdline files p timeout_secs (some out) none = none
finish cmdline files p timeout_secs (some out) (some err) = some record {
  ret = ret_of (p.wait (wait_ms timeout_secs));
  result = record { exit_code = int_of p.exit_code; stdout_buf = out; stderr_buf = err };
  files = files;
  spawned = some (cmdline, files);
}

abbrev pub not_started : Files → Finished
not_started files = record {
  ret = err_system;
  result = record { exit_code = negsuc 0; stdout_buf = []; stderr_buf = [] };
  files = files;
  spawned = none;
}

pub watch : Bytes → Files → ℤ → Option Process → Option Finished
unfolding finish joined
watch cmdline files timeout_secs none = some (not_started files)
watch cmdline files timeout_secs (some p) =
    finish cmdline files p timeout_secs (joined p.out_thread stdout_max p.out)
      (joined p.err_thread stderr_max p.err)

-- `_run_child`: none when a pthread_join does not return.
unfoldable pub run_child : Windows → Files → Bytes → List Bytes → ℤ → Option Finished
unfolding watch
run_child w files cmdline extra_env timeout_secs =
    if not w.out_pipe || not w.err_pipe
    then some (not_started files)
    else watch cmdline files timeout_secs
        (w.create_process cmdline (build_env_block w.environment w.allocates extra_env) files)
