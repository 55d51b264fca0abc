-- ===== src/Agent/Dispatch/Keeps.antt =====
-- Every message from the backend keeps the invariant of the agent.
use leo_one.Prelude.{
  ◌==◌, if◌then◌else◌, length, take, all, length-take, length-map, Bytes, bytes, ℕ, ◌≤◌, ◌<◌, ◌≡◌,
  refl, not, Option, none, some, arith,
}
use leo_one.Protocol.Tree.{Cjson}
use leo_one.Agent.Valid.{
  IsAgent, clamp_timeout_bounds, json_number_clamped_bounds, by_if, send_msg-IsAgent,
  send_cmd_error-IsAgent, launch-IsAgent,
}
use leo_one.Agent.{
  exec_default_timeout_sec, exec_max_timeout_sec, gather_inventory, Agent, Choices, pkg_name_valid,
  patch_id_valid,
}
use leo_one.Agent.Dispatch.{
  timeout_of, exec_script_with, dispatch_exec_script, requested_packages, dispatch_install_pkg,
  requested_patches, dispatch_install_patches, nonempty_string, text_or_empty, transfer_with,
  dispatch_file_transfer, reboot_delay, dispatch_reboot, dispatch_collect_inventory,
  desktop_start_with, dispatch_remote_desktop_start, dispatch_remote_desktop_stop, on_hello_ack,
  on_config_update, handle, on_message,
}
use leo_one.Prelude.Int.{pos}
use leo_one.Protocol.Incoming.{Incoming, incoming_type, get_number, get_string, parse}
use leo_one.Agent.Dispatch.Requests.{
  positive_or_bounds, pkg_name_valid-IsName, patch_id_valid-IsName, all-IsName,
  requested_packages_bound, requested_patches_bound,
}
use leo_one.Prelude.Double.{Double}
use leo_one.Types.{
  MsgType, hello_ack, exec_script, install_pkg, reboot, collect_inventory, ping, config_update,
  force_heartbeat, install_patches, file_transfer, remote_desktop_start, remote_desktop_stop,
}

module _ {Node : Type 0} (cj : Cjson Node) where
  timeout_of_bounds :
      (body : Option Node) (hi fallback : ℕ)
      → 1 ≤ hi
      → 1 ≤ fallback
      → fallback ≤ hi
      → (1 ≤ timeout_of cj body hi fallback) × (timeout_of cj body hi fallback ≤ hi)
  timeout_of_bounds body hi fallback h h' h'' =
      positive_or_bounds (get_number cj body (bytes "timeout_sec")) hi fallback h h' h''

  dispatch_exec_script-IsAgent :
      (ag : Agent) (cmd_id : Bytes) (body : Option Node) (ch : Choices)
      → IsAgent ag
      → IsAgent (dispatch_exec_script cj ag cmd_id body ch)
  unfolding dispatch_exec_script exec_script_with
  dispatch_exec_script-IsAgent ag cmd_id body ch v =
      by_fields (get_string cj body (bytes "interpreter")) (get_string cj body (bytes "script"))
        (timeout_of cj body exec_max_timeout_sec exec_default_timeout_sec)
    where
      by_fields :
          (interpreter script : Option Bytes) (timeout : ℕ)
          → IsAgent (exec_script_with cj ag cmd_id interpreter script timeout ch)
      by_fields (some interpreter) (some script) timeout =
          let bounds = clamp_timeout_bounds (pos timeout) in
          launch-IsAgent cj ag cmd_id _ _ ch v
            (omega (arith, length-take 31 interpreter), bounds.0, bounds.1)
      by_fields (some interpreter) none timeout = send_cmd_error-IsAgent cj ag cmd_id _ ch.stamp v
      by_fields none script timeout = send_cmd_error-IsAgent cj ag cmd_id _ ch.stamp v

  dispatch_install_pkg-IsAgent :
      (ag : Agent) (cmd_id : Bytes) (body : Option Node) (ch : Choices)
      → IsAgent ag
      → IsAgent (dispatch_install_pkg cj ag cmd_id body ch)
  unfolding dispatch_install_pkg
  dispatch_install_pkg-IsAgent ag cmd_id body ch v =
      let names = requested_packages cj body in
      let few = requested_packages_bound cj body in
      let bounds =
        clamp_timeout_bounds
          (pos (timeout_of cj body exec_max_timeout_sec exec_default_timeout_sec)) in
      by_if (length names == 0) (λ _. send_cmd_error-IsAgent cj ag cmd_id _ ch.stamp v)
        (λ e.
          by_if (not (all pkg_name_valid names))
            (λ _. send_cmd_error-IsAgent cj ag cmd_id _ ch.stamp v)
            (λ valid. launch-IsAgent cj ag cmd_id _ _ ch v (
              ground (arith, length-map (take 128) names),
              omega (arith, length-map (take 128) names, few),
              all-IsName 128 pkg_name_valid pkg_name_valid-IsName names (ground arith),
              bounds.0,
              bounds.1,
            )))

  dispatch_install_patches-IsAgent :
      (ag : Agent) (cmd_id : Bytes) (body : Option Node) (ch : Choices)
      → IsAgent ag
      → IsAgent (dispatch_install_patches cj ag cmd_id body ch)
  unfolding dispatch_install_patches
  dispatch_install_patches-IsAgent ag cmd_id body ch v =
      let ids = requested_patches cj body in
      let few = requested_patches_bound cj body in
      let bounds =
        clamp_timeout_bounds
          (pos (timeout_of cj body exec_max_timeout_sec exec_default_timeout_sec)) in
      by_if (length ids == 0) (λ _. send_cmd_error-IsAgent cj ag cmd_id _ ch.stamp v)
        (λ e.
          by_if (not (all patch_id_valid ids))
            (λ _. send_cmd_error-IsAgent cj ag cmd_id _ ch.stamp v)
            (λ valid. launch-IsAgent cj ag cmd_id _ _ ch v (
              ground (arith, length-map (take 159) ids),
              omega (arith, length-map (take 159) ids, few),
              all-IsName 159 patch_id_valid patch_id_valid-IsName ids (ground arith),
              bounds.0,
              bounds.1,
            )))

  nonempty_string-nonempty :
      (body : Option Node) (k s : Bytes) → nonempty_string cj body k ≡ some s → 0 < length s
  nonempty_string-nonempty body k s e = by_string (get_string cj body k) e
    where
      by_string :
          (o : Option Bytes)
          → elim o [ none ↦ none | some t ↦ if length t == 0 then none else some t ] ≡ some s
          → 0 < length s
      by_string none e' = ground arith
      by_string (some t) e' = ground arith

  dispatch_file_transfer-IsAgent :
      (ag : Agent) (cmd_id : Bytes) (body : Option Node) (ch : Choices)
      → IsAgent ag
      → IsAgent (dispatch_file_transfer cj ag cmd_id body ch)
  unfolding dispatch_file_transfer transfer_with
  dispatch_file_transfer-IsAgent ag cmd_id none ch v =
      send_cmd_error-IsAgent cj ag cmd_id _ ch.stamp v
  dispatch_file_transfer-IsAgent ag cmd_id (some node) ch v =
      by_fields (nonempty_string cj (some node) (bytes "download_url"))
        (nonempty_string cj (some node) (bytes "filename")) refl refl
    where
      by_fields :
          (url name : Option Bytes)
          → nonempty_string cj (some node) (bytes "download_url") ≡ url
          → nonempty_string cj (some node) (bytes "filename") ≡ name
          → IsAgent (transfer_with cj ag cmd_id (some node) url name ch)
      by_fields (some url) (some name) e e' =
          let has_url = nonempty_string-nonempty (some node) (bytes "download_url") url e in
          let has_name = nonempty_string-nonempty (some node) (bytes "filename") name e' in
          let bounds =
            timeout_of_bounds (some node) 7200 1800 (omega arith) (omega arith) (omega arith) in
          let digest = text_or_empty cj (get_string cj (some node) (bytes "sha256")) in
          launch-IsAgent cj ag cmd_id _ _ ch v (
            omega (arith, has_url, length-take 1023 url),
            omega (arith, length-take 1023 url),
            omega (arith, has_name, length-take 254 name),
            omega (arith, length-take 254 name),
            omega (arith, length-take 64 digest),
            bounds.0,
            bounds.1,
          )
      by_fields (some url) none e e' = send_cmd_error-IsAgent cj ag cmd_id _ ch.stamp v
      by_fields none name e e' = send_cmd_error-IsAgent cj ag cmd_id _ ch.stamp v

  reboot_delay_bound : (v : Option Double) → reboot_delay cj v ≤ 3600
  unfolding reboot_delay
  reboot_delay_bound none = omega arith
  reboot_delay_bound (some v) = ground (arith, json_number_clamped_bounds v 0 3600 (omega arith))

  on_hello_ack-IsAgent :
      (ag : Agent) (body : Option Node) → IsAgent ag → IsAgent (on_hello_ack cj ag body)
  unfolding on_hello_ack
  on_hello_ack-IsAgent ag body v = record {
    counted = v.counted;
    bounded = v.bounded;
    safe = v.safe;
    link = v.link;
  }

  on_config_update-IsAgent :
      (ag : Agent) (body : Option Node) → IsAgent ag → IsAgent (on_config_update cj ag body)
  unfolding on_config_update
  on_config_update-IsAgent ag body v = record {
    counted = v.counted;
    bounded = v.bounded;
    safe = v.safe;
    link = v.link;
  }

  desktop_start-IsAgent :
      (ag : Agent) (body : Option Node) (ch : Choices)
      → IsAgent ag
      → IsAgent (dispatch_remote_desktop_start cj ag body ch)
  unfolding dispatch_remote_desktop_start desktop_start_with
  desktop_start-IsAgent ag body ch v =
      by_fields (nonempty_string cj body (bytes "session_id"))
        (nonempty_string cj body (bytes "ws_url"))
    where
      by_fields :
          (session_id ws_url : Option Bytes)
          → IsAgent (desktop_start_with cj ag body session_id ws_url ch)
      by_fields (some session_id) (some ws_url) = record {
        counted = v.counted;
        bounded = v.bounded;
        safe = v.safe;
        link = v.link;
      }
      by_fields (some session_id) none = v
      by_fields none ws_url = v

  desktop_stop-IsAgent :
      (ag : Agent) (body : Option Node) (ch : Choices)
      → IsAgent ag
      → IsAgent (dispatch_remote_desktop_stop cj ag body ch)
  unfolding dispatch_remote_desktop_stop
  desktop_stop-IsAgent ag body ch v = record {
    counted = v.counted;
    bounded = v.bounded;
    safe = v.safe;
    link = v.link;
  }

  handle-IsAgent :
      (ag : Agent) (kind : MsgType) (id : Bytes) (body : Option Node) (ch : Choices)
      → IsAgent ag
      → IsAgent (handle cj ag kind id body ch)
  unfolding handle dispatch_reboot dispatch_collect_inventory
  handle-IsAgent ag hello_ack id body ch v = on_hello_ack-IsAgent ag body v
  handle-IsAgent ag ping id body ch v = send_msg-IsAgent cj ag _ v
  handle-IsAgent ag exec_script id body ch v = dispatch_exec_script-IsAgent ag id body ch v
  handle-IsAgent ag install_pkg id body ch v = dispatch_install_pkg-IsAgent ag id body ch v
  handle-IsAgent ag reboot id body ch v =
      launch-IsAgent cj ag id _ _ ch v
        (reboot_delay_bound (get_number cj body (bytes "delay_sec")), refl)
  handle-IsAgent ag collect_inventory id body ch v =
      launch-IsAgent cj ag id gather_inventory 0 ch v refl
  handle-IsAgent ag install_patches id body ch v = dispatch_install_patches-IsAgent ag id body ch v
  handle-IsAgent ag file_transfer id body ch v = dispatch_file_transfer-IsAgent ag id body ch v
  handle-IsAgent ag remote_desktop_start id body ch v = desktop_start-IsAgent ag body ch v
  handle-IsAgent ag remote_desktop_stop id body ch v = desktop_stop-IsAgent ag body ch v
  handle-IsAgent ag force_heartbeat id body ch v = record {
    counted = v.counted;
    bounded = v.bounded;
    safe = v.safe;
    link = v.link;
  }
  handle-IsAgent ag config_update id body ch v = on_config_update-IsAgent ag body v
  handle-IsAgent ag _ id body ch v = v

  -- Any text of the backend whatever keeps the invariant: the slots in use are the threads that are
  -- alive, at most 4 of them, each handed arguments within the bounds of its kind, and the connection
  -- keeps its own invariant.
  pub on_message-IsAgent :
      (ag : Agent) (json_str : Bytes) (ch : Choices)
      → IsAgent ag
      → IsAgent (on_message cj ag json_str ch)
  unfolding on_message
  on_message-IsAgent ag json_str ch v = by_parse (parse cj json_str)
    where
      by_parse :
          (o : Option (Incoming Node))
          → IsAgent (elim o [
            | none ↦ ag
            | some msg ↦ handle cj ag (incoming_type msg.msg_type) msg.id msg.body ch
          ])
      by_parse none = v
      by_parse (some msg) = handle-IsAgent ag (incoming_type msg.msg_type) msg.id msg.body ch v
