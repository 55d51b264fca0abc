-- ===== src/Agent/Threads.antt =====
-- agent/src/agent.c: the ends of the detached threads, and one round of each periodic thread.
pub mod Keeps
pub mod Stop
pub mod Over
use leo_one.Prelude.{
  ◌==◌, if◌then◌else◌, length, remove_at, Bytes, bytes, ℕ, ◌+◌, ◌%◌, ◌^◌, Bool, true, false, not,
  ◌||◌, Option, none, some, List, [], ◌++◌,
}
use leo_one.Prelude.Int.{ℤ, pos, negsuc}
use leo_one.Prelude.Decimal.{decimal}
use leo_one.Types.{
  max_msg_size, Config, Metrics, HwInventory, SwItem, Patch, AgentState, LeoError, ok,
}
use leo_one.Protocol.Tree.{Cjson}
use leo_one.Protocol.{
  Stamp, build_heartbeat, build_metrics, build_cmd_result, build_inventory, build_patch_inventory,
}
use leo_one.Conn.{Conn, create, send}
use leo_one.Agent.{ExecCtx, Agent, release_exec_slot, send_msg}
use leo_one.Agent.Exec.{Report}

-- What `_inventory_thread` collects: the hardware if that succeeds, and the software list, empty
-- where its collection or its memory fails.
pub record Inventory : Type 0 where
  pub hw : Option HwInventory
  pub sw : List SwItem

-- The agent that `leo_agent_start` returns, before its threads have run.
unfoldable pub start : Config → Agent
start cfg = record {
  config = cfg;
  conn = create;
  state = AgentState.connecting;
  threads_stop = false;
  force_heartbeat_pending = false;
  exec_active_count = 0;
  running = [];
  desktop = record { ctx = none; thread_running = false };
}

-- What `leo_agent_stop` sets before it waits for the threads.
unfoldable pub stop_threads : Agent → Agent
stop_threads ag = record ag { state = AgentState.stopping; threads_stop = true }

module _ {Node : Type 0} (cj : Cjson Node) where
  -- The thread at this place of the list of live threads ends: its slot is released.
  pub retire : ℕ → Agent → Agent
  unfolding release_exec_slot
  retire i ag = release_exec_slot (record ag { running = remove_at i ag.running })

  -- The end of `_exec_thread`: the CMD_RESULT is sent, then the slot is released.
  pub exec_done : Agent → ℕ → ExecCtx → Report → Stamp → Agent
  unfolding retire send_msg
  exec_done ag i ctx r st =
      retire i (
        send_msg cj ag
          (build_cmd_result cj ctx.cmd_id r.code r.stdout_s r.stderr_s st max_msg_size))

  inventory_message : Inventory → Stamp → Option Bytes
  inventory_message inv st = elim inv.hw [
    | none ↦ none
    | some hw ↦ build_inventory cj hw inv.sw (pos (length inv.sw)) st max_msg_size
  ]

  abbrev is_ok : LeoError → Bool
  is_ok ok = true
  is_ok _ = false

  inventory_sent : Inventory → Conn × LeoError → Conn × ℤ × Bytes × Bytes
  inventory_sent inv (c, status) =
      if is_ok status
      then (
        c,
        pos 0,
        bytes "Inventaire envoyé (" ++ (decimal (length inv.sw) ++ bytes " logiciel(s))"),
        bytes "",
      )
      else (c, negsuc 0, bytes "", bytes "Échec envoi du message INVENTORY")

  -- By what was collected and what was serialized: the code, the summary and the error.
  inventory_try : Conn → Inventory → Option HwInventory → Option Bytes → Conn × ℤ × Bytes × Bytes
  unfolding inventory_sent
  inventory_try c inv none built =
      (c, negsuc 0, bytes "", bytes "Échec de la collecte de l'inventaire matériel")
  inventory_try c inv (some hw) none =
      (c, negsuc 0, bytes "", bytes "Échec de sérialisation de l'inventaire (trop volumineux ?)")
  inventory_try c inv (some hw) (some msg) =
      if length msg == 0
      then (
        c,
        negsuc 0,
        bytes "",
        bytes "Échec de sérialisation de l'inventaire (trop volumineux ?)",
      )
      else inventory_sent inv (send c msg)

  -- The INVENTORY message, and what the CMD_RESULT will say.
  inventory_outcome : Agent → Inventory → Stamp → Conn × ℤ × Bytes × Bytes
  unfolding inventory_message inventory_try
  inventory_outcome ag inv st = inventory_try ag.conn inv inv.hw (inventory_message inv st)

  -- `_inventory_thread`; each of its two messages has its own stamp.
  pub inventory_done : Agent → ℕ → ExecCtx → Inventory → Stamp → Stamp → Agent
  unfolding inventory_outcome retire send_msg
  inventory_done ag i ctx inv st st' =
      let (c, code, summary, err) = inventory_outcome ag inv st in
      retire i (
        send_msg cj (record ag { conn = c })
          (build_cmd_result cj ctx.cmd_id code summary err st' max_msg_size))

  -- One round of `_heartbeat_thread` behind its sleep, with the sequence number of the thread.
  pub heartbeat_round : Agent → ℕ → Stamp → Agent × ℕ
  unfolding send_msg
  heartbeat_round ag seq st =
      if ag.threads_stop
      then (ag, seq)
      else if not ag.conn.connected
      then (record ag { force_heartbeat_pending = false }, seq)
      else (
        send_msg cj (record ag { force_heartbeat_pending = false }) (build_heartbeat cj seq st 512),
        (seq + 1) % 2 ^ 64,
      )

  -- One round of `_metrics_thread`, on what the collection returned.
  pub metrics_round : Agent → Option Metrics → Stamp → Agent
  unfolding send_msg
  metrics_round ag none st = ag
  metrics_round ag (some m) st =
      if ag.threads_stop || not ag.conn.connected
      then ag
      else send_msg cj ag (build_metrics cj m st max_msg_size)

  -- One round of `_patch_thread`; `none` is a collection that failed.
  pub patch_round : Agent → Option (List Patch) → Stamp → Agent
  unfolding send_msg
  patch_round ag none st = ag
  patch_round ag (some ps) st =
      if ag.threads_stop || not ag.conn.connected
      then ag
      else send_msg cj ag (build_patch_inventory cj ps (pos (length ps)) st max_msg_size)
