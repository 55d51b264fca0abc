-- ===== src/Types.antt =====
-- agent/include/leo_agent.h: the constants, the enums and the records that the parts share.
use leo_one.Prelude.{ℕ, List, Bytes, bytes}
use leo_one.Prelude.Int.{ℤ}
use leo_one.Prelude.Double.{Double}

abbrev pub metrics_interval_default : ℕ
metrics_interval_default = 300

abbrev pub heartbeat_interval_default : ℕ
heartbeat_interval_default = 10800

abbrev pub reconnect_init_ms : ℕ
reconnect_init_ms = 5000

abbrev pub reconnect_step_ms : ℕ
reconnect_step_ms = 5000

abbrev pub reconnect_max_ms : ℕ
reconnect_max_ms = 60000

abbrev pub max_msg_size : ℕ
max_msg_size = 65536

abbrev pub send_queue_depth : ℕ
send_queue_depth = 32

-- LEO_UUID_STR_LEN - 1: what fits before the terminator.
abbrev pub uuid_str_max : ℕ
uuid_str_max = 36

abbrev pub workdir : Bytes
workdir = bytes "/opt/leo-one/work/"

abbrev pub max_cpu_cores : ℕ
max_cpu_cores = 256

abbrev pub patch_id_max_len : ℕ
patch_id_max_len = 160

abbrev pub patch_install_max_count : ℕ
patch_install_max_count = 64

abbrev pub file_url_max_len : ℕ
file_url_max_len = 1024

abbrev pub file_name_max_len : ℕ
file_name_max_len = 255

abbrev pub file_sha256_hex_len : ℕ
file_sha256_hex_len = 65

-- leo_msg_type_t. A number that the enum does not name falls to `default` in every switch.
pub data MsgType : Type 0 where
  hello heartbeat metrics inventory cmd_result log pong patch_inventory : MsgType
  file_transfer_progress remote_desktop_status : MsgType
  hello_ack exec_script install_pkg reboot collect_inventory ping config_update : MsgType
  force_heartbeat install_patches file_transfer remote_desktop_start : MsgType
  remote_desktop_stop unknown : MsgType

-- leo_config_t
pub record Config : Type 0 where
  pub agent_id : Bytes
  pub tenant_id : Bytes
  pub ws_endpoint : Bytes
  pub hostname : Bytes
  pub os_name : Bytes
  pub os_version : Bytes
  pub arch : Bytes
  pub hardware_id : Bytes
  pub ca_fingerprint : Bytes
  pub metrics_interval_sec : ℤ
  pub heartbeat_interval_sec : ℤ

-- leo_metrics_t; the timestamp of the snapshot is never sent.
pub record Metrics : Type 0 where
  pub cpu_total_percent : Double
  pub cpu_per_core : List Double
  pub cpu_core_count : ℤ
  pub ram_total_bytes : ℕ
  pub ram_used_bytes : ℕ
  pub ram_available_bytes : ℕ
  pub disk_total_bytes : ℕ
  pub disk_used_bytes : ℕ
  pub net_bytes_in : ℕ
  pub net_bytes_out : ℕ
  pub process_count : ℕ

-- leo_hw_inventory_t
pub record HwInventory : Type 0 where
  pub cpu_model : Bytes
  pub cpu_cores : ℤ
  pub cpu_threads : ℤ
  pub hw_ram_total_bytes : ℕ
  pub disk_count : ℤ
  pub bios_version : Bytes
  pub bios_vendor : Bytes
  pub motherboard : Bytes
  pub serial_number : Bytes

-- leo_sw_item_t
pub record SwItem : Type 0 where
  pub name : Bytes
  pub version : Bytes
  pub publisher : Bytes
  pub install_path : Bytes

-- leo_patch_severity_t
pub data Severity : Type 0 where
  optional important critical : Severity

-- leo_patch_t
pub record Patch : Type 0 where
  pub id : Bytes
  pub title : Bytes
  pub severity : Severity
  pub size_bytes : ℕ

-- leo_file_transfer_status_t
pub data TransferStatus : Type 0 where
  downloading verifying completed failed : TransferStatus

-- leo_agent_state_t
pub data AgentState : Type 0 where
  init enrolling connecting connected reconnecting stopping : AgentState

-- leo_error_t
pub data LeoError : Type 0 where
  ok err_config err_network err_tls err_protocol err_system err_queue_full err_timeout : LeoError

abbrev pub agent_version : Bytes
agent_version = bytes "1.0.0"

abbrev pub protocol_version : ℕ
protocol_version = 1
