-- ===== src/Agent/Dispatch.antt =====
-- agent/src/agent.c: the dispatchers of the commands, and `_on_message`.
pub mod Requests
pub mod Keeps
pub mod Answers
use leo_one.Prelude.{
  ◌==◌, if◌then◌else◌, length, take, all, Bytes, bytes, ℕ, zero, suc, ◌-◌, Bool, true, false, not,
  ◌&&◌, Option, none, some, List, [], ◌∷◌, map,
}
use leo_one.Prelude.Int.{ℤ, pos}
use leo_one.Prelude.Double.{Double, is_nan, lt_nat, gt_nat, to_u64?}
use leo_one.Types.{
  max_msg_size, patch_id_max_len, patch_install_max_count, file_url_max_len, file_name_max_len,
  file_sha256_hex_len, MsgType, hello_ack, exec_script, install_pkg, reboot, collect_inventory,
  ping, config_update, force_heartbeat, install_patches, file_transfer, remote_desktop_start,
  remote_desktop_stop, Config, AgentState,
}
use leo_one.Protocol.Tree.{Cjson}
use leo_one.Protocol.Incoming.{incoming_type, get_number, get_string, parse}
use leo_one.Protocol.{build_pong}
use leo_one.Desktop.{Desktop, Request}
use leo_one.Desktop
use leo_one.Agent.{
  exec_default_timeout_sec, exec_max_timeout_sec, pkg_name_max_len, pkg_max_count,
  file_transfer_default_timeout_sec, file_transfer_max_timeout_sec, reboot_default_delay_sec,
  reboot_max_delay_sec, reboot_schedule_timeout_sec, run_script, install_packages, reboot_host,
  apply_patches, fetch_file, gather_inventory, Agent, Choices, clamp_timeout, json_number_clamped,
  positive_or, pkg_name_valid, patch_id_valid, send_msg, send_cmd_error, launch,
}

module _ {Node : Type 0} (cj : Cjson Node) where
  -- "timeout_sec", within 1 and the bound given, or the fallback.
  abbrev timeout_of : Option Node → ℕ → ℕ → ℕ
  timeout_of body hi fallback = positive_or (get_number cj body (bytes "timeout_sec")) 1 hi fallback

  exec_script_with : Agent → Bytes → Option Bytes → Option Bytes → ℕ → Choices → Agent
  exec_script_with ag cmd_id (some interpreter) (some script) timeout ch =
      launch cj ag cmd_id (run_script (take 31 interpreter) script) (clamp_timeout (pos timeout)) ch
  exec_script_with ag cmd_id (some interpreter) none timeout ch =
      send_cmd_error cj ag cmd_id (bytes "Requête invalide : 'interpreter' et 'script' requis")
        ch.stamp
  exec_script_with ag cmd_id none script timeout ch =
      send_cmd_error cj ag cmd_id (bytes "Requête invalide : 'interpreter' et 'script' requis")
        ch.stamp

  -- `_dispatch_exec_script` and `_launch_exec`
  pub dispatch_exec_script : Agent → Bytes → Option Node → Choices → Agent
  unfolding exec_script_with
  dispatch_exec_script ag cmd_id body ch =
      exec_script_with ag cmd_id (get_string cj body (bytes "interpreter"))
        (get_string cj body (bytes "script"))
        (timeout_of body exec_max_timeout_sec exec_default_timeout_sec) ch

  -- The loop over a JSON array: the strings in it, up to the number that there is room for.
  pub collect_strings : ℕ → List Node → List Bytes
  collect_strings zero items = []
  collect_strings (suc room) [] = []
  collect_strings (suc room) (x ∷ items) = elim (cj.string x) [
    | none ↦ collect_strings (suc room) items
    | some s ↦ s ∷ collect_strings room items
  ]

  abbrev get_items : Option Node → Bytes → Option (List Node)
  get_items none k = none
  get_items (some n) k = elim (cj.get_item n k) [ none ↦ none | some v ↦ cj.items v ]

  abbrev singleton? : Option Bytes → List Bytes
  singleton? none = []
  singleton? (some s) = s ∷ []

  -- "packages" if it is an array, else "package".
  pub requested_packages : Option Node → List Bytes
  unfolding collect_strings
  requested_packages body = elim (get_items body (bytes "packages")) [
    | some items ↦ collect_strings pkg_max_count items
    | none ↦ singleton? (get_string cj body (bytes "package"))
  ]

  -- `_dispatch_install_pkg`
  pub dispatch_install_pkg : Agent → Bytes → Option Node → Choices → Agent
  dispatch_install_pkg ag cmd_id body ch =
      let names = requested_packages body in
      if length names == 0
      then send_cmd_error cj ag cmd_id (bytes "Requête invalide : 'package' ou 'packages' requis")
          ch.stamp
      else if not (all pkg_name_valid names)
      then send_cmd_error cj ag cmd_id (bytes "Requête invalide : nom de paquet non autorisé")
          ch.stamp
      else launch cj ag cmd_id (install_packages (map (take pkg_name_max_len) names))
          (clamp_timeout (pos (timeout_of body exec_max_timeout_sec exec_default_timeout_sec))) ch

  -- "patch_ids", each cut to the 159 bytes of its buffer.
  pub requested_patches : Option Node → List Bytes
  unfolding collect_strings
  requested_patches body = elim (get_items body (bytes "patch_ids")) [
    | some items ↦ map (take (patch_id_max_len - 1)) (collect_strings patch_install_max_count items)
    | none ↦ []
  ]

  abbrev get_bool : Option Node → Bytes → Bool
  get_bool none k = false
  get_bool (some n) k = elim (cj.get_item n k) [
    | none ↦ false
    | some v ↦ elim (cj.bool v) [ none ↦ false | some b ↦ b ]
  ]

  -- `_dispatch_install_patches`
  pub dispatch_install_patches : Agent → Bytes → Option Node → Choices → Agent
  dispatch_install_patches ag cmd_id body ch =
      let ids = requested_patches body in
      if length ids == 0
      then send_cmd_error cj ag cmd_id (bytes "Requête invalide : 'patch_ids' requis") ch.stamp
      else if not (all patch_id_valid ids)
      then send_cmd_error cj ag cmd_id
          (bytes "Requête invalide : identifiant de patch non autorisé") ch.stamp
      else launch cj ag cmd_id
          (apply_patches (map (take (patch_id_max_len - 1)) ids)
            (get_bool body (bytes "reboot_after")))
          (clamp_timeout (pos (timeout_of body exec_max_timeout_sec exec_default_timeout_sec))) ch

  -- `cJSON_IsString(j) && j->valuestring[0]`
  abbrev nonempty_string : Option Node → Bytes → Option Bytes
  nonempty_string body k = elim (get_string cj body k) [
    | none ↦ none
    | some s ↦ if length s == 0 then none else some s
  ]

  abbrev text_or_empty : Option Bytes → Bytes
  text_or_empty none = []
  text_or_empty (some s) = s

  -- `(uint64_t)jsize->valuedouble`
  abbrev cast_u64 : Double → ℕ
  cast_u64 v = elim (to_u64? v) [ none ↦ cj.overflow_u64 v | some n ↦ n ]

  abbrev size_of : Option Double → ℕ
  size_of none = 0
  size_of (some v) = if gt_nat v 0 then cast_u64 v else 0

  transfer_with : Agent → Bytes → Option Node → Option Bytes → Option Bytes → Choices → Agent
  transfer_with ag cmd_id body (some url) (some name) ch =
      launch cj ag cmd_id
        (fetch_file (take (file_url_max_len - 1) url) (take (file_name_max_len - 1) name)
          (take (file_sha256_hex_len - 1) (text_or_empty (get_string cj body (bytes "sha256"))))
          (size_of (get_number cj body (bytes "size_bytes"))))
        (timeout_of body file_transfer_max_timeout_sec file_transfer_default_timeout_sec) ch
  transfer_with ag cmd_id body (some url) none ch =
      send_cmd_error cj ag cmd_id (bytes "Requête invalide : 'download_url' et 'filename' requis")
        ch.stamp
  transfer_with ag cmd_id body none name ch =
      send_cmd_error cj ag cmd_id (bytes "Requête invalide : 'download_url' et 'filename' requis")
        ch.stamp

  -- `_dispatch_file_transfer`
  pub dispatch_file_transfer : Agent → Bytes → Option Node → Choices → Agent
  unfolding transfer_with
  dispatch_file_transfer ag cmd_id none ch =
      send_cmd_error cj ag cmd_id (bytes "Requête invalide : corps manquant") ch.stamp
  dispatch_file_transfer ag cmd_id (some body) ch =
      transfer_with ag cmd_id (some body) (nonempty_string (some body) (bytes "download_url"))
        (nonempty_string (some body) (bytes "filename")) ch

  -- `cJSON_IsNumber(j) && j->valuedouble >= 0 ? _json_number_clamped(...) : fallback`
  pub reboot_delay : Option Double → ℕ
  reboot_delay none = reboot_default_delay_sec
  reboot_delay (some v) =
      if not (is_nan v) && not (lt_nat v 0)
      then json_number_clamped v 0 reboot_max_delay_sec
      else reboot_default_delay_sec

  -- `_dispatch_reboot`
  pub dispatch_reboot : Agent → Bytes → Option Node → Choices → Agent
  unfolding reboot_delay
  dispatch_reboot ag cmd_id body ch =
      launch cj ag cmd_id (reboot_host (reboot_delay (get_number cj body (bytes "delay_sec"))))
        reboot_schedule_timeout_sec ch

  -- `_dispatch_collect_inventory`; its thread has no time limit of its own.
  pub dispatch_collect_inventory : Agent → Bytes → Choices → Agent
  dispatch_collect_inventory ag cmd_id ch = launch cj ag cmd_id gather_inventory 0 ch

  -- `cJSON_IsNumber(j) ? _json_number_clamped(...) : fallback`
  pub number_or : Option Double → ℕ → ℕ → ℕ → ℕ
  number_or none lo hi fallback = fallback
  number_or (some v) lo hi fallback = json_number_clamped v lo hi

  abbrev mode_or_view : Option Bytes → Bytes
  mode_or_view none = bytes "view"
  mode_or_view (some m) = m

  desktop_request : Option Node → Bytes → Bytes → Request
  unfolding number_or
  desktop_request body session_id ws_url = record {
    req_session_id = session_id;
    req_ws_url = ws_url;
    req_mode = mode_or_view (get_string cj body (bytes "mode"));
    req_fps = number_or (get_number cj body (bytes "fps")) 1 30 8;
    req_quality = number_or (get_number cj body (bytes "quality")) 1 100 60;
    req_max_width = number_or (get_number cj body (bytes "max_width")) 1 7680 1920;
    req_max_height = number_or (get_number cj body (bytes "max_height")) 1 7680 1080;
  }

  desktop_start_with : Agent → Option Node → Option Bytes → Option Bytes → Choices → Agent
  unfolding desktop_request
  desktop_start_with ag body (some session_id) (some ws_url) ch = record ag {
    desktop =
        (Desktop.start ag.desktop (desktop_request body session_id ws_url) ch.alloc ch.spawned).0;
  }
  desktop_start_with ag body _ _ ch = ag

  -- `_dispatch_remote_desktop_start`
  pub dispatch_remote_desktop_start : Agent → Option Node → Choices → Agent
  unfolding desktop_start_with
  dispatch_remote_desktop_start ag body ch =
      desktop_start_with ag body (nonempty_string body (bytes "session_id"))
        (nonempty_string body (bytes "ws_url")) ch

  -- `_dispatch_remote_desktop_stop`
  pub dispatch_remote_desktop_stop : Agent → Option Node → Choices → Agent
  dispatch_remote_desktop_stop ag body ch = record ag {
    desktop = Desktop.stop ag.desktop (get_string cj body (bytes "session_id")) ch.desktop_exits;
  }

  -- `if (cJSON_IsNumber(j) && j->valuedouble > 0) interval = _json_number_clamped(..., 1, 86400)`
  pub new_interval : Option Double → ℤ → ℤ
  new_interval none old = old
  new_interval (some v) old = if gt_nat v 0 then pos (json_number_clamped v 1 86400) else old

  -- LEO_MSG_HELLO_ACK
  pub on_hello_ack : Agent → Option Node → Agent
  unfolding new_interval
  on_hello_ack ag body = record ag {
    state = AgentState.connected;
    config = record cfg {
      heartbeat_interval_sec =
          new_interval (get_number cj body (bytes "heartbeat_interval_sec"))
            cfg.heartbeat_interval_sec;
      metrics_interval_sec =
          new_interval (get_number cj body (bytes "metrics_interval_sec")) cfg.metrics_interval_sec;
    };
  }
    where
      cfg : Config
      cfg = ag.config

  -- LEO_MSG_CONFIG_UPDATE
  pub on_config_update : Agent → Option Node → Agent
  unfolding new_interval
  on_config_update ag body = record ag {
    config = record cfg {
      metrics_interval_sec =
          new_interval (get_number cj body (bytes "metrics_interval_sec")) cfg.metrics_interval_sec;
    };
  }
    where
      cfg : Config
      cfg = ag.config

  -- The switch of `_on_message`.
  pub handle : Agent → MsgType → Bytes → Option Node → Choices → Agent
  handle ag hello_ack id body ch = on_hello_ack ag body
  handle ag ping id body ch = send_msg cj ag (build_pong cj id ch.stamp max_msg_size)
  handle ag exec_script id body ch = dispatch_exec_script ag id body ch
  handle ag install_pkg id body ch = dispatch_install_pkg ag id body ch
  handle ag reboot id body ch = dispatch_reboot ag id body ch
  handle ag collect_inventory id body ch = dispatch_collect_inventory ag id ch
  handle ag install_patches id body ch = dispatch_install_patches ag id body ch
  handle ag file_transfer id body ch = dispatch_file_transfer ag id body ch
  handle ag remote_desktop_start id body ch = dispatch_remote_desktop_start ag body ch
  handle ag remote_desktop_stop id body ch = dispatch_remote_desktop_stop ag body ch
  handle ag force_heartbeat id body ch = record ag { force_heartbeat_pending = true }
  handle ag config_update id body ch = on_config_update ag body
  handle ag _ id body ch = ag

  -- `_on_message`
  pub on_message : Agent → Bytes → Choices → Agent
  on_message ag json_str ch = elim (parse cj json_str) [
    | none ↦ ag
    | some msg ↦ handle ag (incoming_type msg.msg_type) msg.id msg.body ch
  ]
