-- ===== src/Settings.antt =====
-- agent/src/config.c: agent.conf as text, read line by line and written whole.
pub mod Lines
pub mod Values
pub mod RoundTrip
pub mod Fits
pub mod Tests
use leo_one.Prelude.{
  ◌==◌, if◌then◌else◌, length, take, drop, Bytes, bytes, str_eq, find_index, is_space, ℕ, zero, suc,
  Bool, true, false, not, ◌&&◌, ◌||◌, Option, none, some, List, [], ◌∷◌, ◌++◌,
}
use leo_one.Prelude.Int.{ℤ, pos}
use leo_one.Prelude.Decimal.{print_int, skip_spaces, atoi}
use leo_one.Types.{
  metrics_interval_default, heartbeat_interval_default, Config, LeoError, ok, err_config,
}

-- A file opened for reading is the list of its bytes. `fgets(line, room + 1, fp)`: at most `room` bytes,
-- up to and with a newline, and what is left.
unfoldable pub fgets : ℕ → Bytes → Bytes × Bytes
fgets zero s = ([], s)
fgets (suc room) [] = ([], [])
fgets (suc room) (c ∷ s) =
    let (line, rest) = fgets room s in if c == b'\n' then (c ∷ [], s) else (c ∷ line, rest)

-- `while (fgets(line, room + 1, fp))`: the lines that the loop sees, on fuel.
unfoldable pub read_lines : ℕ → ℕ → Bytes → List Bytes
unfolding fgets
read_lines room zero s = []
read_lines room (suc fuel) [] = []
read_lines room (suc fuel) (c ∷ s) =
    let (line, rest) = fgets room (c ∷ s) in line ∷ read_lines room fuel rest

-- A buffer as a C string: what stands before the first zero byte.
unfoldable pub c_string : Bytes → Bytes
c_string [] = []
c_string (c ∷ s) = if c == 0 then [] else c ∷ c_string s

-- The spaces at the end are cut off.
unfoldable pub trim_end : Bytes → Bytes
trim_end [] = []
trim_end (c ∷ s) = let rest = trim_end s in if is_space c && length rest == 0 then [] else c ∷ rest

-- `_trim`
unfoldable pub trim : Bytes → Bytes
unfolding skip_spaces trim_end
trim s = trim_end (skip_spaces s)

-- `p[0] == '#' || p[0] == ';' || p[0] == '\0'`
abbrev pub is_skipped : Bytes → Bool
is_skipped [] = true
is_skipped (c ∷ s) = c == b'#' || c == b';'

-- A line by its key and its value, if it has both.
unfoldable pub key_value_at : Bytes → Option ℕ → Option (Bytes × Bytes)
unfolding trim
key_value_at p none = none
key_value_at p (some sep) = some (trim (take sep p), trim (drop (suc sep) p))

unfoldable pub key_value : Bytes → Option (Bytes × Bytes)
unfolding key_value_at c_string trim
key_value line =
    let p = trim (c_string line) in
    if is_skipped p then none else key_value_at p (find_index b'=' p)

-- `_set_field`, on the field's old value; `room` is the size of the buffer less one.
pub set_field : Bytes → Bytes → Bytes → ℕ → Bytes → Bytes
set_field key val target room old = if str_eq key target then take room val else old

set_int : Bytes → Bytes → Bytes → ℤ → ℤ
set_int key val target old = if str_eq key target then atoi val else old

-- The eleven tests of the loop's body.
pub set_fields : Config → Bytes → Bytes → Config
unfolding set_field set_int
set_fields cfg key val = record {
  agent_id = set_field key val (bytes "agent_id") 36 cfg.agent_id;
  tenant_id = set_field key val (bytes "tenant_id") 36 cfg.tenant_id;
  ws_endpoint = set_field key val (bytes "ws_endpoint") 511 cfg.ws_endpoint;
  hostname = set_field key val (bytes "hostname") 255 cfg.hostname;
  os_name = set_field key val (bytes "os_name") 31 cfg.os_name;
  os_version = set_field key val (bytes "os_version") 127 cfg.os_version;
  arch = set_field key val (bytes "arch") 15 cfg.arch;
  hardware_id = set_field key val (bytes "hardware_id") 36 cfg.hardware_id;
  ca_fingerprint = set_field key val (bytes "ca_fingerprint") 64 cfg.ca_fingerprint;
  metrics_interval_sec = set_int key val (bytes "metrics_interval_sec") cfg.metrics_interval_sec;
  heartbeat_interval_sec =
      set_int key val (bytes "heartbeat_interval_sec") cfg.heartbeat_interval_sec;
}

set_by : Config → Option (Bytes × Bytes) → Config
unfolding set_fields
set_by cfg none = cfg
set_by cfg (some (key, val)) = set_fields cfg key val

-- The body of the loop.
pub set_line : Config → Bytes → Config
unfolding set_by
set_line cfg line = set_by cfg (key_value line)

pub set_lines : Config → List Bytes → Config
set_lines cfg [] = cfg
set_lines cfg (line ∷ lines) = set_lines (set_line cfg line) lines

-- What `memset` and the two defaults leave.
abbrev pub blank : Config
blank = record {
  agent_id = [];
  tenant_id = [];
  ws_endpoint = [];
  hostname = [];
  os_name = [];
  os_version = [];
  arch = [];
  hardware_id = [];
  ca_fingerprint = [];
  metrics_interval_sec = pos metrics_interval_default;
  heartbeat_interval_sec = pos heartbeat_interval_default;
}

-- `leo_config_is_valid`
pub is_valid : Config → Bool
is_valid cfg =
    if not (length cfg.ca_fingerprint == 64)
    then false
    else not (length cfg.agent_id == 0)
      && not (length cfg.tenant_id == 0)
      && not (length cfg.ws_endpoint == 0)

-- The configuration that the text of a file gives. A line takes a byte at least, so as many rounds as
-- there are bytes are enough.
pub parse_text : Bytes → Config
unfolding set_lines
parse_text text = set_lines blank (read_lines 1023 (length text) text)

-- `leo_config_load`, on the file's content, or `none` if it cannot be opened, and what `*out` held.
pub load : Option Bytes → Config → LeoError × Config
unfolding parse_text is_valid
load none old = (err_config, old)
load (some text) old = let cfg = parse_text text in (if is_valid cfg then ok else err_config, cfg)

-- `fprintf(fp, key "=%s\n", val)`
abbrev pub entry : Bytes → Bytes → Bytes
entry key val = key ++ (b'=' ∷ (val ++ (b'\n' ∷ [])))

abbrev pub heading : Bytes
heading =
    bytes "# Leo-One Agent — configuration générée automatiquement"
    ++ (b'\n'
        ∷ (bytes "# Ne pas modifier manuellement sauf agent_id et ws_endpoint"
            ++ (b'\n' ∷ b'\n' ∷ [])))

-- The settings in the order in which they are written.
abbrev pub settings : Config → List (Bytes × Bytes)
settings cfg =
    (bytes "agent_id", cfg.agent_id)
    ∷ (bytes "tenant_id", cfg.tenant_id)
    ∷ (bytes "ws_endpoint", cfg.ws_endpoint)
    ∷ (bytes "hostname", cfg.hostname)
    ∷ (bytes "os_name", cfg.os_name)
    ∷ (bytes "os_version", cfg.os_version)
    ∷ (bytes "arch", cfg.arch)
    ∷ (bytes "hardware_id", cfg.hardware_id)
    ∷ (bytes "ca_fingerprint", cfg.ca_fingerprint)
    ∷ (bytes "metrics_interval_sec", print_int cfg.metrics_interval_sec)
    ∷ (bytes "heartbeat_interval_sec", print_int cfg.heartbeat_interval_sec)
    ∷ []

pub entries : List (Bytes × Bytes) → Bytes
entries [] = []
entries ((key, val) ∷ rest) = entry key val ++ entries rest

-- The text that `leo_config_save` writes.
pub config_text : Config → Bytes
unfolding entries
config_text cfg = heading ++ entries (settings cfg)

-- `leo_config_save`: the result, and the file's new content. The argument is how many bytes of the text
-- reach the file, whose errors fprintf and fclose report to nobody, or none where it cannot be opened.
unfoldable pub save : Option ℕ → Config → LeoError × Option Bytes
unfolding config_text
save none cfg = (err_config, none)
save (some room) cfg = (ok, some (take room (config_text cfg)))
