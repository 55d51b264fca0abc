-- ===== src/Protocol/Code.antt =====
-- agent/include/leo_agent.h: the numbers of leo_msg_type_t.
use leo_one.Prelude.Int.{ℤ, pos, negsuc}
use leo_one.Types.{
  MsgType, hello, heartbeat, metrics, inventory, cmd_result, log, pong, patch_inventory,
  file_transfer_progress, remote_desktop_status, hello_ack, exec_script, install_pkg, reboot,
  collect_inventory, ping, config_update, force_heartbeat, install_patches, file_transfer,
  remote_desktop_start, remote_desktop_stop, unknown,
}

abbrev pub code_of : MsgType → ℤ
code_of hello = pos 1
code_of heartbeat = pos 2
code_of metrics = pos 3
code_of inventory = pos 4
code_of cmd_result = pos 5
code_of log = pos 6
code_of pong = pos 7
code_of patch_inventory = pos 8
code_of file_transfer_progress = pos 9
code_of remote_desktop_status = pos 10
code_of hello_ack = pos 100
code_of exec_script = pos 101
code_of install_pkg = pos 102
code_of reboot = pos 103
code_of collect_inventory = pos 104
code_of ping = pos 105
code_of config_update = pos 106
code_of force_heartbeat = pos 107
code_of install_patches = pos 108
code_of file_transfer = pos 109
code_of remote_desktop_start = pos 110
code_of remote_desktop_stop = pos 111
code_of unknown = negsuc 0
