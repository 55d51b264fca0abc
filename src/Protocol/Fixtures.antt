-- ===== src/Protocol/Fixtures.antt =====
-- Concrete values for the tests of every component, and a JSON library that knows one text.
use leo_one.Prelude.{
  if◌then◌else◌, Bytes, bytes, str_eq, Bool, true, false, Option, none, some, List, [], ◌∷◌,
}
use leo_one.Types.{Config}
use leo_one.Prelude.Int.{pos, negsuc}
use leo_one.Prelude.Double.{Double, finite}
use leo_one.Protocol.{Stamp}
use leo_one.Protocol.Tree.{
  Json, number, string, array, object, Items, nil, cons, Fields, end, field, Cjson,
}

-- A JSON library for the tests: its nodes are the values themselves, and the one text that it knows
-- is an INSTALL_PKG of two packages.
abbrev find : Bytes → Fields → Option Json
find k end = none
find k (field name v rest) = if str_eq name k then some v else find k rest

abbrev strings : Items → List Json
strings nil = []
strings (cons v rest) = v ∷ strings rest

abbrev get_item_of : Json → Bytes → Option Json
get_item_of (object fs) k = find k fs
get_item_of _ k = none

abbrev number_of : Json → Option Double
number_of (number d) = some d
number_of _ = none

abbrev string_of : Json → Option Bytes
string_of (string s) = some s
string_of _ = none

abbrev items_of : Json → Option (List Json)
items_of (array vs) = some (strings vs)
items_of _ = none

abbrev is_object_of : Json → Bool
is_object_of (object fs) = true
is_object_of _ = false

abbrev pub command_text : Bytes
command_text = bytes "install vim and git"

abbrev pub command_body : Json
command_body = object (
    field (bytes "packages") (array (cons (string (bytes "vim")) (cons (string (bytes "git")) nil)))
      end)

abbrev command : Json
command = object (
    field (bytes "type") (number (finite false 102 0))
      (field (bytes "id") (string (bytes "c-1")) (field (bytes "body") command_body end)))

abbrev pub toy : Cjson Json
toy = record {
  parse = λ s. if str_eq s command_text then some command else none;
  get_item = get_item_of;
  number = number_of;
  string = string_of;
  bool = λ v. none;
  items = items_of;
  is_object = is_object_of;
  print = λ v. some (bytes "{}");
  overflow_int = λ d. negsuc 0;
  overflow_u64 = λ d. 0;
}

abbrev pub some_config : Config
some_config = record {
  agent_id = bytes "a-1";
  tenant_id = bytes "t-1";
  ws_endpoint = bytes "wss://backend:8443/ws/agent";
  hostname = bytes "host";
  os_name = bytes "linux";
  os_version = bytes "6.1";
  arch = bytes "x86_64";
  hardware_id = bytes "h-1";
  ca_fingerprint = bytes "";
  metrics_interval_sec = pos 300;
  heartbeat_interval_sec = pos 10800;
}

abbrev pub some_stamp : Stamp
some_stamp = record { rnd = 1 ∷ 2 ∷ 3 ∷ []; tv_sec = 1_700_000_000; tv_nsec = 5_000_000 }
