-- ===== src/Agent/Reach.antt =====
-- Everything that may happen to a started agent, and its invariant in every state that it can reach.
use leo_one.Prelude.{get_elem?, Bytes, ℕ, ◌≡◌, Option, some, List}
use leo_one.Conn.Wakeup
use leo_one.Types.{Config, Metrics, Patch}
use leo_one.Protocol.{Stamp}
use leo_one.Protocol.Tree.{Cjson}
use leo_one.Agent.Valid.{IsAgent}
use leo_one.Agent.{ExecCtx, Agent, Choices}
use leo_one.Agent.Exec.{Executor, exec_report}
use leo_one.Agent.Threads.{
  Inventory, start, stop_threads, exec_done, inventory_done, heartbeat_round, metrics_round,
  patch_round,
}
use leo_one.Agent.Dispatch.{on_message}
use leo_one.Agent.Dispatch.Keeps.{on_message-IsAgent}
use leo_one.Agent.Threads.Keeps.{
  start-IsAgent, stop_threads-IsAgent, exec_done-IsAgent, inventory_done-IsAgent,
  heartbeat_round-IsAgent, metrics_round-IsAgent, patch_round-IsAgent,
}
use leo_one.Conn.{Conn}
use leo_one.Desktop.{Desktop}
use leo_one.Desktop

-- A message from the backend, the end of a live thread, a round of a periodic thread, a step of the
-- connection, one of the two locks of the end of a remote desktop's thread, or the beginning of the stop.
pub data Step {Node : Type 0} (cj : Cjson Node) (ex : Executor) (ag : Agent) : Agent → Type 0 where
  receives : (json_str : Bytes) (ch : Choices) → Step cj ex ag (on_message cj ag json_str ch)
  finishes :
      (i : ℕ) (ctx : ExecCtx) (st : Stamp)
      → get_elem? ag.running i ≡ some ctx
      → Step cj ex ag (exec_done cj ag i ctx (exec_report ex ctx) st)
  inventories :
      (i : ℕ) (ctx : ExecCtx) (inv : Inventory) (st st' : Stamp)
      → get_elem? ag.running i ≡ some ctx
      → Step cj ex ag (inventory_done cj ag i ctx inv st st')
  beats : (seq : ℕ) (st : Stamp) → Step cj ex ag (heartbeat_round cj ag seq st).0
  measures : (m : Option Metrics) (st : Stamp) → Step cj ex ag (metrics_round cj ag m st)
  patches : (ps : Option (List Patch)) (st : Stamp) → Step cj ex ag (patch_round cj ag ps st)
  links : (c : Conn) → Wakeup.Step cj ag.config ag.conn c → Step cj ex ag (record ag { conn = c })
  forgets : Step cj ex ag (record ag { desktop = Desktop.forget ag.desktop })
  signals : Step cj ex ag (record ag { desktop = Desktop.signal_exit ag.desktop })
  stops : Step cj ex ag (stop_threads ag)

pub data Reach {Node : Type 0} (cj : Cjson Node) (ex : Executor) (cfg : Config)
    : Agent → Type 0 where
  boot : Reach cj ex cfg (start cfg)
  next : {ag ag' : Agent} → Reach cj ex cfg ag → Step cj ex ag ag' → Reach cj ex cfg ag'

pub Step-IsAgent :
    {Node : Type 0} {cj : Cjson Node} {ex : Executor} {ag ag' : Agent}
    → IsAgent ag
    → Step cj ex ag ag'
    → IsAgent ag'
Step-IsAgent {cj} {ag} v (receives json_str ch) = on_message-IsAgent cj ag json_str ch v
Step-IsAgent {cj} {ag} v (finishes i ctx st h) = exec_done-IsAgent cj ag i ctx _ st h v
Step-IsAgent {cj} {ag} v (inventories i ctx inv st st' h) =
    inventory_done-IsAgent cj ag i ctx inv st st' h v
Step-IsAgent {cj} {ag} v (beats seq st) = heartbeat_round-IsAgent cj ag seq st v
Step-IsAgent {cj} {ag} v (measures m st) = metrics_round-IsAgent cj ag m st v
Step-IsAgent {cj} {ag} v (patches ps st) = patch_round-IsAgent cj ag ps st v
Step-IsAgent {ag} v (links c s) = record {
  counted = v.counted;
  bounded = v.bounded;
  safe = v.safe;
  link = Wakeup.Step-IsValid v.link s;
}
Step-IsAgent {ag} v forgets = record {
  counted = v.counted;
  bounded = v.bounded;
  safe = v.safe;
  link = v.link;
}
Step-IsAgent {ag} v signals = record {
  counted = v.counted;
  bounded = v.bounded;
  safe = v.safe;
  link = v.link;
}
Step-IsAgent {ag} v stops = stop_threads-IsAgent ag v

-- In every state that a started agent can reach, the count of execution slots is the number of
-- detached threads that are alive, at most 4; every such thread was handed a command identifier of
-- at most 36 bytes and arguments within the bounds of its kind (script: interpreter of at most 31
-- bytes, 1 to 300 s; packages: 1 to 32 names of 1 to 128 allowed bytes; patches: 1 to 64 identifiers of
-- 1 to 159 allowed bytes; reboot: at most 3600 s of delay; file: a URL, a name and a digest that fit
-- their buffers, 1 to 7200 s); and the connection satisfies its own invariant.
pub Reach-IsAgent :
    {Node : Type 0} {cj : Cjson Node} {ex : Executor} {cfg : Config} {ag : Agent}
    → Reach cj ex cfg ag
    → IsAgent ag
Reach-IsAgent {cfg} boot = start-IsAgent cfg
Reach-IsAgent (next r s) = Step-IsAgent (Reach-IsAgent r) s
