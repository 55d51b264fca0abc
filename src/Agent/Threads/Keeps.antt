-- ===== src/Agent/Threads/Keeps.antt =====
-- The ends of the threads and the rounds of the periodic threads keep the invariant of the agent.
use leo_one.Prelude.{
  get_elem?, length-remove_at, All-remove_at, Bytes, ℕ, ◌≡◌, refl, false, not, ◌||◌, Option, none,
  some, List, arith,
}
use leo_one.Types.{Config, Metrics, HwInventory, Patch}
use leo_one.Protocol.{Stamp, build_heartbeat}
use leo_one.Protocol.Tree.{Cjson}
use leo_one.Agent.Valid.{IsSafe, IsAgent, by_if, send_msg-IsAgent}
use leo_one.Agent.{ExecCtx, Agent, send_msg}
use leo_one.Agent.Exec.{Report}
use leo_one.Agent.Threads.{
  Inventory, start, stop_threads, retire, exec_done, inventory_message, inventory_sent,
  inventory_try, inventory_outcome, inventory_done, heartbeat_round, metrics_round, patch_round,
}
use leo_one.Conn.Wakeup.{IsValid, sent-IsValid, create-IsValid}
use leo_one.Conn.{Conn}

pub start-IsAgent : (cfg : Config) → IsAgent (start cfg)
unfolding start
start-IsAgent cfg = record {
  counted = refl;
  bounded = omega arith;
  safe = tt;
  link = create-IsValid;
}

pub stop_threads-IsAgent : (ag : Agent) → IsAgent ag → IsAgent (stop_threads ag)
unfolding stop_threads
stop_threads-IsAgent ag v = record {
  counted = v.counted;
  bounded = v.bounded;
  safe = v.safe;
  link = v.link;
}

module _ {Node : Type 0} (cj : Cjson Node) where
  -- A live thread ends: one thread fewer, and one slot.
  retire-IsAgent :
      (ag : Agent) (i : ℕ) (ctx : ExecCtx)
      → get_elem? ag.running i ≡ some ctx
      → IsAgent ag
      → IsAgent (retire cj i ag)
  unfolding retire
  retire-IsAgent ag i ctx h v = record {
    counted = omega (arith, v.counted, length-remove_at i ag.running ctx h);
    bounded = omega (arith, v.bounded);
    safe = All-remove_at IsSafe i ag.running v.safe;
    link = v.link;
  }

  pub exec_done-IsAgent :
      (ag : Agent) (i : ℕ) (ctx : ExecCtx) (r : Report) (st : Stamp)
      → get_elem? ag.running i ≡ some ctx
      → IsAgent ag
      → IsAgent (exec_done cj ag i ctx r st)
  unfolding exec_done
  exec_done-IsAgent ag i ctx r st h v =
      retire-IsAgent (send_msg cj ag _) i ctx h (send_msg-IsAgent cj ag _ v)

  inventory_try-IsValid :
      (c : Conn) (inv : Inventory) (hw : Option HwInventory) (built : Option Bytes)
      → IsValid c
      → IsValid (inventory_try cj c inv hw built).0
  unfolding inventory_try inventory_sent
  inventory_try-IsValid c inv none built v = v
  inventory_try-IsValid c inv (some hw) none v = v
  inventory_try-IsValid c inv (some hw) (some msg) v = ground (arith, sent-IsValid c msg v)

  inventory_outcome-IsValid :
      (ag : Agent) (inv : Inventory) (st : Stamp)
      → IsValid ag.conn
      → IsValid (inventory_outcome cj ag inv st).0
  unfolding inventory_outcome
  inventory_outcome-IsValid ag inv st v =
      inventory_try-IsValid ag.conn inv inv.hw (inventory_message cj inv st) v

  pub inventory_done-IsAgent :
      (ag : Agent) (i : ℕ) (ctx : ExecCtx) (inv : Inventory) (st st' : Stamp)
      → get_elem? ag.running i ≡ some ctx
      → IsAgent ag
      → IsAgent (inventory_done cj ag i ctx inv st st')
  unfolding inventory_done
  inventory_done-IsAgent ag i ctx inv st st' h v = retire-IsAgent _ i ctx h (
      send_msg-IsAgent cj (record ag { conn = (inventory_outcome cj ag inv st).0 }) _
        (record {
          counted = v.counted;
          bounded = v.bounded;
          safe = v.safe;
          link = inventory_outcome-IsValid ag inv st v.link;
        }))

  pub heartbeat_round-IsAgent :
      (ag : Agent) (seq : ℕ) (st : Stamp) → IsAgent ag → IsAgent (heartbeat_round cj ag seq st).0
  unfolding heartbeat_round
  heartbeat_round-IsAgent ag seq st v =
      let idle : IsAgent (record ag { force_heartbeat_pending = false }) = record {
        counted = v.counted;
        bounded = v.bounded;
        safe = v.safe;
        link = v.link;
      } in
      let sent =
        send_msg-IsAgent cj (record ag { force_heartbeat_pending = false })
          (build_heartbeat cj seq st 512) idle in
      ground (arith, sent)

  pub metrics_round-IsAgent :
      (ag : Agent) (m : Option Metrics) (st : Stamp)
      → IsAgent ag
      → IsAgent (metrics_round cj ag m st)
  unfolding metrics_round
  metrics_round-IsAgent ag none st v = v
  metrics_round-IsAgent ag (some m) st v =
      by_if (ag.threads_stop || not ag.conn.connected) (λ _. v) (λ _. send_msg-IsAgent cj ag _ v)

  pub patch_round-IsAgent :
      (ag : Agent) (ps : Option (List Patch)) (st : Stamp)
      → IsAgent ag
      → IsAgent (patch_round cj ag ps st)
  unfolding patch_round
  patch_round-IsAgent ag none st v = v
  patch_round-IsAgent ag (some ps) st v =
      by_if (ag.threads_stop || not ag.conn.connected) (λ _. v) (λ _. send_msg-IsAgent cj ag _ v)
