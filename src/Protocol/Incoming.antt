-- ===== src/Protocol/Incoming.antt =====
-- agent/src/protocol.c, `leo_proto_parse`: the envelope of a message from the backend.
pub mod Kinds
use leo_one.Prelude.{◌==◌, if◌then◌else◌, take, Bytes, bytes, Option, none, some}
use leo_one.Prelude.Int.{ℤ, pos, negsuc}
use leo_one.Prelude.Double.{Double, to_int?}
use leo_one.Types.{
  uuid_str_max, MsgType, hello_ack, exec_script, install_pkg, reboot, collect_inventory, ping,
  config_update, force_heartbeat, install_patches, file_transfer, remote_desktop_start,
  remote_desktop_stop, unknown,
}
use leo_one.Protocol.Tree.{Cjson}

-- leo_incoming_msg_t; `msg_type` is any `int`, as the cast leaves it.
pub record Incoming (Node : Type 0) : Type 0 where
  pub msg_type : ℤ
  pub id : Bytes
  pub body : Option Node

-- How a switch over leo_msg_type_t reads a number that a backend may send.
pub incoming_type : ℤ → MsgType
incoming_type (negsuc n) = unknown
incoming_type (pos n) =
    if n == 100
    then hello_ack
    else if n == 101
    then exec_script
    else if n == 102
    then install_pkg
    else if n == 103
    then reboot
    else if n == 104
    then collect_inventory
    else if n == 105
    then ping
    else if n == 106
    then config_update
    else if n == 107
    then force_heartbeat
    else if n == 108
    then install_patches
    else if n == 109
    then file_transfer
    else if n == 110
    then remote_desktop_start
    else if n == 111
    then remote_desktop_stop
    else unknown

module _ {Node : Type 0} (cj : Cjson Node) where
  -- cJSON_GetObjectItemCaseSensitive with one of the kind tests behind it.
  abbrev pub get_number : Option Node → Bytes → Option Double
  get_number none k = none
  get_number (some n) k = elim (cj.get_item n k) [ none ↦ none | some v ↦ cj.number v ]

  abbrev pub get_string : Option Node → Bytes → Option Bytes
  get_string none k = none
  get_string (some n) k = elim (cj.get_item n k) [ none ↦ none | some v ↦ cj.string v ]

  -- `(int)v`
  abbrev pub cast_int : Double → ℤ
  cast_int v = elim (to_int? v) [ none ↦ cj.overflow_int v | some z ↦ z ]

  -- The copy that the zeroed field takes: at most 36 bytes.
  abbrev id_field : Option Bytes → Bytes
  id_field none = bytes ""
  id_field (some s) = take uuid_str_max s

  parse_root : Node → Option (Incoming Node)
  parse_root root = elim (get_number (some root) (bytes "type")) [
    | none ↦ none
    | some t ↦ some (record {
      msg_type = cast_int t;
      id = id_field (get_string (some root) (bytes "id"));
      body = cj.get_item root (bytes "body");
    })
  ]

  -- `none` is LEO_ERR_PROTOCOL.
  pub parse : Bytes → Option (Incoming Node)
  unfolding parse_root
  parse json_str = elim (cj.parse json_str) [ none ↦ none | some root ↦ parse_root root ]
