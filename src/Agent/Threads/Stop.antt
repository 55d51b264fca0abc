-- ===== src/Agent/Threads/Stop.antt =====
-- agent/src/agent.c: `leo_agent_stop` behind the join of the periodic threads, while the others go on.
use leo_one.Prelude.{◌==◌, if◌then◌else◌, ◌≡◌, Bool, true, false}
use leo_one.Types.{Config}
use leo_one.Protocol.Tree.{Cjson}
use leo_one.Agent.{Agent}
use leo_one.Agent.Exec.{Executor}
use leo_one.Agent.Threads.{stop_threads}
use leo_one.Agent.Reach.{Step, receives, Reach}
use leo_one.Conn.{ask_exit}
use leo_one.Desktop.{stop_all}

-- Where `leo_agent_stop` stands: before the wait for the execution threads, before leo_rd_stop_all, before
-- leo_conn_destroy, behind free, or behind a return that frees nothing.
pub data Stage : Type 0 where
  draining : Stage
  closing_desktop : Stage
  closing_conn : Stage
  freed : Stage
  abandoned : Stage

-- Whether the wait for the execution threads goes on, which it does up to its deadline, and whether each
-- of the other two waits ends with what it waits for.
pub record Waits : Type 0 where
  pub drain_goes_on : Bool
  pub session_exits : Bool
  pub conn_joins : Bool

unfoldable pub after_drain : Agent → Waits → Stage
after_drain ag w =
    if ag.exec_active_count == 0
    then closing_desktop
    else if w.drain_goes_on
    then draining
    else abandoned

unfoldable pub stop_stage : Stage → Agent → Waits → Stage × Agent
unfolding after_drain stop_all
stop_stage draining ag w = (after_drain ag w, ag)
stop_stage closing_desktop ag w =
    let r = stop_all ag.desktop w.session_exits in
    (if r.1 then closing_conn else abandoned, record ag { desktop = r.0 })
stop_stage closing_conn ag w =
    (if w.conn_joins then freed else abandoned, record ag { conn = ask_exit ag.conn })
stop_stage freed ag w = (freed, ag)
stop_stage abandoned ag w = (abandoned, ag)

-- A step of another thread that is no message of the backend, or that comes before the wait for the
-- execution threads is over.
abbrev pub IsQuiet :
    {Node : Type 0} {cj : Cjson Node} {ex : Executor} {ag ag' : Agent}
    → Stage
    → Step cj ex ag ag'
    → Type 0
IsQuiet draining s = Unit
IsQuiet stage (receives json_str ch) = false ≡ true
IsQuiet stage s = Unit

-- What may happen from a stop on: the stop goes on, or another thread makes a step.
pub data Stopping {Node : Type 0} (cj : Cjson Node) (ex : Executor) (cfg : Config)
    : Stage → Agent → Type 0 where
  begins : {ag : Agent} → Reach cj ex cfg ag → Stopping cj ex cfg draining (stop_threads ag)
  goes_on :
      {stage : Stage} {ag : Agent}
      → Stopping cj ex cfg stage ag
      → (w : Waits) → Stopping cj ex cfg (stop_stage stage ag w).0 (stop_stage stage ag w).1
  others :
      {stage : Stage} {ag ag' : Agent}
      → Stopping cj ex cfg stage ag
      → (s : Step cj ex ag ag') → IsQuiet stage s
      → Stopping cj ex cfg stage ag'
