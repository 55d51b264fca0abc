-- ===== src/Agent.antt =====
-- agent/src/agent.c: the state of the agent, its execution slots, and what each message from the
-- backend makes it do. One call of a handler is one step: what the system decides during it (memory,
-- threads, the random bytes and the clock of the message that it may send) is the argument `Choices`.
mod Tests
pub mod Dispatch
pub mod Valid
pub mod Reach
pub mod Exec
pub mod Threads
use leo_one.Prelude.{
  ltb, leb, ◌==◌, if◌then◌else◌, length, take, all, Bytes, bytes, is_alnum, ℕ, ◌+◌, ◌-◌, Bool,
  false, ◌||◌, Option, none, some, List, ◌∷◌,
}
use leo_one.Prelude.Int.{ℤ, pos, negsuc}
use leo_one.Prelude.Double.{Double, is_nan, lt_nat, gt_nat, trunc}
use leo_one.Types.{max_msg_size, uuid_str_max, patch_id_max_len, Config, AgentState}
use leo_one.Protocol.Tree.{Cjson}
use leo_one.Protocol.{Stamp, build_cmd_result}
use leo_one.Conn.{Conn, send_built}
use leo_one.Desktop.{Desktop}

abbrev pub exec_max_concurrent : ℕ
exec_max_concurrent = 4

abbrev pub exec_default_timeout_sec : ℕ
exec_default_timeout_sec = 300

abbrev pub exec_max_timeout_sec : ℕ
exec_max_timeout_sec = 300

abbrev pub pkg_name_max_len : ℕ
pkg_name_max_len = 128

abbrev pub pkg_max_count : ℕ
pkg_max_count = 32

abbrev pub file_transfer_default_timeout_sec : ℕ
file_transfer_default_timeout_sec = 1800

abbrev pub file_transfer_max_timeout_sec : ℕ
file_transfer_max_timeout_sec = 7200

abbrev pub reboot_default_delay_sec : ℕ
reboot_default_delay_sec = 60

abbrev pub reboot_max_delay_sec : ℕ
reboot_max_delay_sec = 3600

abbrev pub reboot_schedule_timeout_sec : ℕ
reboot_schedule_timeout_sec = 15

-- What a detached thread is to do: the kinds of `_exec_kind_t` with their fields of `_exec_ctx_t`,
-- and the thread of COLLECT_INVENTORY.
pub data Task : Type 0 where
  run_script : (interpreter script : Bytes) → Task
  install_packages : (names : List Bytes) → Task
  reboot_host : (delay_sec : ℕ) → Task
  apply_patches : (ids : List Bytes) → (reboot_after : Bool) → Task
  fetch_file : (url name sha256_hex : Bytes) → (size : ℕ) → Task
  gather_inventory : Task

-- `_exec_ctx_t`
pub record ExecCtx : Type 0 where
  pub cmd_id : Bytes
  pub timeout_secs : ℕ
  pub task : Task

-- `struct leo_agent`, with the detached threads that are alive and the remote desktop's globals.
pub record Agent : Type 0 where
  pub config : Config
  pub conn : Conn
  pub state : AgentState
  pub threads_stop : Bool
  pub force_heartbeat_pending : Bool
  pub exec_active_count : ℕ
  pub running : List ExecCtx
  pub desktop : Desktop

pub record Choices : Type 0 where
  pub stamp : Stamp
  pub alloc : Bool
  pub spawned : Bool
  pub desktop_exits : Bool

-- `_clamp_timeout`
pub clamp_timeout : ℤ → ℕ
clamp_timeout (negsuc n) = exec_default_timeout_sec
clamp_timeout (pos n) =
    if n == 0
    then exec_default_timeout_sec
    else if ltb exec_max_timeout_sec n
    then exec_max_timeout_sec
    else n

-- `_json_number_clamped`, for bounds that are not negative, as all of its calls have.
pub json_number_clamped : Double → ℕ → ℕ → ℕ
json_number_clamped v lo hi =
    if is_nan v then lo else if lt_nat v lo then lo else if gt_nat v hi then hi else trunc v

-- `cJSON_IsNumber(j) && j->valuedouble > 0 ? _json_number_clamped(...) : fallback`
pub positive_or : Option Double → ℕ → ℕ → ℕ → ℕ
unfolding json_number_clamped
positive_or none lo hi fallback = fallback
positive_or (some v) lo hi fallback = if gt_nat v 0 then json_number_clamped v lo hi else fallback

abbrev is_name_byte : ℕ → Bool
is_name_byte c = is_alnum c || c == b'.' || c == b'+' || c == b'-' || c == b'_' || c == b':'

-- `_pkg_name_valid`
pub pkg_name_valid : Bytes → Bool
pkg_name_valid name =
    if length name == 0 || ltb pkg_name_max_len (length name) then false else all is_name_byte name

-- `_patch_id_valid`
unfoldable pub patch_id_valid : Bytes → Bool
patch_id_valid id =
    if length id == 0 || leb patch_id_max_len (length id) then false else all is_name_byte id

-- `_release_exec_slot`
pub release_exec_slot : Agent → Agent
release_exec_slot ag = record ag { exec_active_count = ag.exec_active_count - 1 }

module _ {Node : Type 0} (cj : Cjson Node) where
  -- `if (wlen > 0) leo_conn_send(ag->conn, buf, wlen)`
  pub send_msg : Agent → Option Bytes → Agent
  send_msg ag built = record ag { conn = (send_built ag.conn built).0 }

  -- `_send_cmd_error`
  pub send_cmd_error : Agent → Bytes → Bytes → Stamp → Agent
  unfolding send_msg
  send_cmd_error ag cmd_id err_msg st =
      send_msg ag (build_cmd_result cj cmd_id (negsuc 0) (bytes "") err_msg st max_msg_size)

  -- `_reserve_exec_slot`; `none` is false.
  pub reserve_exec_slot : Agent → Option Agent
  reserve_exec_slot ag =
      if leb exec_max_concurrent ag.exec_active_count
      then none
      else some (record ag { exec_active_count = ag.exec_active_count + 1 })

  -- `_spawn_detached`
  pub spawn_detached : Agent → Bytes → ExecCtx → Choices → Agent
  unfolding send_cmd_error release_exec_slot
  spawn_detached ag cmd_id ctx ch =
      if ch.spawned
      then record ag { running = ctx ∷ ag.running }
      else send_cmd_error (release_exec_slot ag) cmd_id (bytes "Erreur interne de l'agent (thread)")
          ch.stamp

  -- Behind a slot that was reserved: the context is allocated, or the slot goes back.
  with_slot : Agent → Bytes → Task → ℕ → Choices → Agent
  unfolding send_cmd_error release_exec_slot spawn_detached
  with_slot ag cmd_id task timeout ch =
      if ch.alloc
      then spawn_detached ag cmd_id
          (record { cmd_id = take uuid_str_max cmd_id; timeout_secs = timeout; task = task }) ch
      else send_cmd_error (release_exec_slot ag) cmd_id
          (bytes "Erreur interne de l'agent (allocation)") ch.stamp

  -- The end that the dispatchers share: a slot, a context, a thread.
  pub launch : Agent → Bytes → Task → ℕ → Choices → Agent
  unfolding send_cmd_error with_slot reserve_exec_slot
  launch ag cmd_id task timeout ch = elim (reserve_exec_slot ag) [
    | none ↦
        send_cmd_error ag cmd_id (bytes "Trop de commandes en cours d'exécution sur l'agent")
          ch.stamp
    | some reserved ↦ with_slot reserved cmd_id task timeout ch
  ]
