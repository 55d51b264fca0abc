-- ===== src/Protocol.antt =====
-- agent/src/protocol.c: the messages that the agent sends, and the envelope of those it reads.
-- cJSON, a library that the agent vendors, is the parameter `Cjson`.
pub mod Tests
pub mod Fixtures
pub mod Fits
pub mod Tree
pub mod Uuid
pub mod Code
pub mod Incoming
use Prim.Native.Nat.{min}
use leo_one.Prelude.{
  ℕ, zero, suc, ◌*◌, ◌+◌, ◌/◌, ◌%◌, ◌^◌, List, [], ◌∷◌, Option, none, some, String, Bytes, bytes,
  length, take, leb, ltb, if◌then◌else◌,
}
use leo_one.Prelude.Int.{ℤ, pos, negsuc, neg}
use leo_one.Prelude.Double.{Double, of_int, of_nat}
use leo_one.Types.{
  Config, Metrics, HwInventory, SwItem, Patch, Severity, important, critical, TransferStatus,
  downloading, verifying, completed, failed, MsgType, hello, heartbeat, metrics, inventory,
  cmd_result, log, pong, patch_inventory, file_transfer_progress, remote_desktop_status, hello_ack,
  exec_script, install_pkg, reboot, collect_inventory, ping, config_update, force_heartbeat,
  install_patches, file_transfer, remote_desktop_start, remote_desktop_stop, unknown, max_cpu_cores,
  agent_version, protocol_version,
}
use Tree.{Json, number, string, array, object, Items, nil, cons, Fields, end, field, Cjson}
use Uuid.{gen_uuid}
use Code.{code_of}

-- What one message takes from the system: sixteen random bytes and the clock, in s and ns.
pub record Stamp : Type 0 where
  pub rnd : Bytes
  pub tv_sec : ℕ
  pub tv_nsec : ℕ

pub now_ms : Stamp → ℕ
now_ms st = (st.tv_sec * 1000 + st.tv_nsec / 1_000_000) % 2 ^ 64

-- cJSON_AddStringToObject and cJSON_AddNumberToObject, in front of the calls that follow.
abbrev add_string : String → Bytes → Fields → Fields
add_string k v rest = field (bytes k) (string v) rest

abbrev add_number : String → Double → Fields → Fields
add_number k v rest = field (bytes k) (number v) rest

pub envelope : MsgType → Option Fields → Stamp → Json
envelope t body st = object (
    add_number "v" (of_int (pos protocol_version)) (
      add_number "type" (of_int (code_of t)) (
        add_string "id" (gen_uuid st.rnd) (
          add_number "ts" (of_nat (now_ms st))
            (field (bytes "body") (elim body [ none ↦ object end | some fs ↦ object fs ]) end)))))

-- The text if it fits the buffer with its terminator; `none` is the result -1.
pub fit : ℕ → Option Bytes → Option Bytes
fit bufsz none = none
fit bufsz (some s) = if leb bufsz (length s) then none else some s

abbrev number_items : List Double → Items
number_items [] = nil
number_items (d ∷ ds) = cons (number d) (number_items ds)

abbrev pub count_of : ℤ → ℕ
count_of (pos n) = n
count_of (negsuc n) = 0

abbrev sw_items : ℕ → List SwItem → Items
sw_items zero sw = nil
sw_items (suc n) [] = nil
sw_items (suc n) (s ∷ sw) =
    cons
      (object (
        add_string "name" s.name (
          add_string "version" s.version
            (add_string "publisher" s.publisher (add_string "install_path" s.install_path end)))))
      (sw_items n sw)

pub patch_severity_str : Severity → Bytes
patch_severity_str critical = bytes "critical"
patch_severity_str important = bytes "important"
patch_severity_str _ = bytes "optional"

patch_items : ℕ → List Patch → Items
unfolding patch_severity_str
patch_items zero ps = nil
patch_items (suc n) [] = nil
patch_items (suc n) (p ∷ ps) =
    cons
      (object (
        add_string "id" p.id (
          add_string "title" p.title (
            add_string "severity" (patch_severity_str p.severity)
              (add_number "size_bytes" (of_nat p.size_bytes) end)))))
      (patch_items n ps)

pub file_transfer_status_str : TransferStatus → Bytes
file_transfer_status_str downloading = bytes "downloading"
file_transfer_status_str verifying = bytes "verifying"
file_transfer_status_str completed = bytes "completed"
file_transfer_status_str failed = bytes "failed"

abbrev error_field : Option Bytes → Fields
error_field none = end
error_field (some e) = add_string "error" e end

module _ {Node : Type 0} (cj : Cjson Node) where
  -- `_serialize`
  pub serialize : MsgType → Option Fields → Stamp → ℕ → Option Bytes
  unfolding fit envelope
  serialize t body st bufsz = fit bufsz (cj.print (envelope t body st))

  pub build_hello : Config → Stamp → ℕ → Option Bytes
  unfolding serialize
  build_hello cfg st bufsz = serialize hello (some body) st bufsz
    where
      body : Fields
      body = add_string "agent_id" cfg.agent_id (
          add_string "tenant_id" cfg.tenant_id (
            add_string "hostname" cfg.hostname (
              add_string "os" cfg.os_name (
                add_string "os_version" cfg.os_version
                  (add_string "arch" cfg.arch (add_string "agent_version" agent_version end))))))

  pub build_heartbeat : ℕ → Stamp → ℕ → Option Bytes
  unfolding serialize
  build_heartbeat seq st bufsz =
      serialize heartbeat (some (add_number "seq" (of_nat seq) end)) st bufsz

  pub build_metrics : Metrics → Stamp → ℕ → Option Bytes
  unfolding serialize
  build_metrics m st bufsz = serialize metrics (some body) st bufsz
    where
      cores : Items
      cores = number_items (take (min (count_of m.cpu_core_count) max_cpu_cores) m.cpu_per_core)

      body : Fields
      body = add_number "cpu_percent" m.cpu_total_percent (
          add_number "ram_total_bytes" (of_nat m.ram_total_bytes) (
            add_number "ram_used_bytes" (of_nat m.ram_used_bytes) (
              add_number "ram_available_bytes" (of_nat m.ram_available_bytes) (
                add_number "disk_total_bytes" (of_nat m.disk_total_bytes) (
                  add_number "disk_used_bytes" (of_nat m.disk_used_bytes) (
                    add_number "net_bytes_in" (of_nat m.net_bytes_in) (
                      add_number "net_bytes_out" (of_nat m.net_bytes_out) (
                        add_number "process_count" (of_nat m.process_count)
                          (field (bytes "cpu_per_core") (array cores) end)))))))))

  pub build_cmd_result : Bytes → ℤ → Bytes → Bytes → Stamp → ℕ → Option Bytes
  unfolding serialize
  build_cmd_result cmd_id exit_code stdout_s stderr_s st bufsz =
      serialize cmd_result
        (some (
          add_string "command_id" cmd_id (
            add_number "exit_code" (of_int exit_code)
              (add_string "stdout" stdout_s (add_string "stderr" stderr_s end)))))
        st bufsz

  pub build_pong : Bytes → Stamp → ℕ → Option Bytes
  unfolding serialize
  build_pong ping_id st bufsz = serialize pong (some (add_string "ping_id" ping_id end)) st bufsz

  pub build_inventory : HwInventory → List SwItem → ℤ → Stamp → ℕ → Option Bytes
  unfolding serialize
  build_inventory hw sw sw_count st bufsz = serialize inventory (some body) st bufsz
    where
      jhw : Fields
      jhw = add_string "cpu_model" hw.cpu_model (
          add_number "cpu_cores" (of_int hw.cpu_cores) (
            add_number "cpu_threads" (of_int hw.cpu_threads) (
              add_number "ram_total_bytes" (of_nat hw.hw_ram_total_bytes) (
                add_number "disk_count" (of_int hw.disk_count) (
                  add_string "bios_version" hw.bios_version (
                    add_string "bios_vendor" hw.bios_vendor (
                      add_string "motherboard" hw.motherboard
                        (add_string "serial_number" hw.serial_number end))))))))

      body : Fields
      body =
          field (bytes "hardware") (object jhw)
            (field (bytes "software") (array (sw_items (count_of sw_count) sw)) end)

  pub build_patch_inventory : List Patch → ℤ → Stamp → ℕ → Option Bytes
  unfolding serialize patch_items
  build_patch_inventory patches count st bufsz =
      serialize patch_inventory
        (some (field (bytes "patches") (array (patch_items (count_of count) patches)) end)) st bufsz

  pub build_file_transfer_progress :
      Bytes → TransferStatus → ℤ → ℕ → ℕ → Option Bytes → Stamp → ℕ → Option Bytes
  unfolding serialize file_transfer_status_str
  build_file_transfer_progress cmd_id status percent received total error_msg st bufsz =
      serialize file_transfer_progress
        (some (
          add_string "command_id" cmd_id (
            add_string "status" (file_transfer_status_str status) (
              add_number "percent" (of_int percent) (
                add_number "bytes_received" (of_nat received)
                  (add_number "bytes_total" (of_nat total) (error_field error_msg)))))))
        st bufsz

  pub build_remote_desktop_status : Bytes → Bytes → Option Bytes → Stamp → ℕ → Option Bytes
  unfolding serialize
  build_remote_desktop_status session_id status error_msg st bufsz =
      serialize remote_desktop_status
        (some
          (add_string "session_id" session_id (add_string "status" status (error_field error_msg))))
        st bufsz
