-- ===== src/Agent/Tests.antt =====
-- The agent at concrete messages.
use leo_one.Prelude.{bytes, ◌≡◌, refl, true, false, [], some}
use leo_one.Types.{install_pkg}
use leo_one.Protocol.Fixtures.{command_text, command_body, toy, some_config, some_stamp}
use leo_one.Agent.{Choices}
use leo_one.Agent.Valid.{IsAgent}
use leo_one.Agent.Reach.{next, boot, receives, Reach-IsAgent}
use leo_one.Agent.Dispatch.{handle, on_message}
use leo_one.Agent.Dispatch.Answers.{Answered, handle-Answered}
use leo_one.Agent.Threads.{start}
use leo_one.Conn.{ask_exit}
use leo_one.Agent.Exec.Tests.{run_all}
use leo_one.Agent.{Agent}
use leo_one.Agent.Threads.{stop_threads}
use leo_one.Agent.Threads.Stop.{freed, Waits, after_drain, stop_stage, Stopping, begins, goes_on}
use leo_one.Agent.Threads.Over.{Stopping-freed}
use leo_one.Desktop.{stop_all, wait_thread_exit, ask_stop}

abbrev lucky : Choices
lucky = record { stamp = some_stamp; alloc = true; spawned = true; desktop_exits = true }

Reach-IsAgent_example : IsAgent (on_message toy (start some_config) command_text lucky)
Reach-IsAgent_example =
    Reach-IsAgent {cj = toy} {ex = run_all} {cfg = some_config}
      (next boot (receives command_text lucky))

handle-Answered_example :
    Answered toy
      (start some_config)
      (bytes "c-1")
      some_stamp
      (handle toy (start some_config) install_pkg (bytes "c-1") (some command_body) lucky)
handle-Answered_example =
    handle-Answered toy (start some_config) install_pkg (bytes "c-1") (some command_body) lucky refl

abbrev at_once : Waits
at_once = record { drain_goes_on = true; session_exits = true; conn_joins = true }

abbrev stopped : Agent
stopped = stop_threads (start some_config)

frees : Stopping toy run_all some_config freed (record stopped { conn = ask_exit stopped.conn })
unfolding start stop_threads stop_stage after_drain stop_all wait_thread_exit ask_stop
frees = goes_on (goes_on (goes_on (begins boot) at_once) at_once) at_once

Stopping-freed_example : (stopped.running ≡ []) × (stopped.desktop.thread_running ≡ false)
Stopping-freed_example = Stopping-freed frees
