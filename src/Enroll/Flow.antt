-- ===== src/Enroll/Flow.antt =====
-- agent/src/enroll.c: `leo_enroll`, from the bootstrap file to agent.conf.
pub mod Stored
pub mod Credentials
mod Tests
use leo_one.Prelude.{
  ℕ, if◌then◌else◌, Bytes, bytes, Bool, true, false, Option, none, some, List, [], ◌∷◌,
}
use leo_one.Prelude.Int.{ℤ}
use leo_one.Types.{Config, LeoError, ok, err_config, err_tls, err_protocol, err_system}
use leo_one.Protocol.Tree.{Cjson}
use leo_one.Settings.{blank, save}
use leo_one.Url.{Target, http_parse_url}
use leo_one.Enroll.Bootstrap.{Bootstrap, load_bootstrap}
use leo_one.Enroll.Machine.{
  detect_hostname, detect_os_version, Processor, detect_arch, detect_hardware_id,
}
use leo_one.Enroll.Http.{Network, http_post_json}
use leo_one.Enroll.Response.{build_enroll_request, parse_enroll_response}

-- What the agent finds: the bootstrap file, what gethostname, /etc/os-release, uname and the two files
-- with the machine's identifier give, the server and the network, whether the credentials can be
-- written, how much of agent.conf can be, none where it cannot be opened, and whether remove succeeds.
pub record World : Type 0 where
  pub bootstrap : Option Bytes
  pub hostname : Option Bytes
  pub os_release : Option Bytes
  pub uname_release : Option Bytes
  pub processor : Processor
  pub id_files : List (Option Bytes)
  pub network : Target → Bytes → Network
  pub saves_credentials : Bytes → Bytes → Bool
  pub config_room : Option ℕ
  pub removes : Bool

-- The result, `*out_cfg`, what was written as credentials and as agent.conf, and whether the bootstrap
-- file is gone.
pub record Enrolled : Type 0 where
  pub ret : LeoError
  pub out_cfg : Config
  pub credentials : Option (Bytes × Bytes)
  pub config_file : Option Bytes
  pub removes_bootstrap : Bool

abbrev pub stopped : LeoError → Config → Enrolled
stopped e cfg = record {
  ret = e;
  out_cfg = cfg;
  credentials = none;
  config_file = none;
  removes_bootstrap = false;
}

-- The configuration before the request, without the machine's identifier.
detected : World → Config
detected w = record blank {
  hostname = detect_hostname w.hostname;
  os_version = detect_os_version w.os_release w.uname_release;
  arch = detect_arch w.processor;
  os_name = bytes "linux";
}

-- The result of remove, on the bootstrap file, is only logged.
saved_config : World → Config → Bytes → Bytes → LeoError × Option Bytes → Enrolled
saved_config w cfg cert key (ok, file) = record {
  ret = ok;
  out_cfg = cfg;
  credentials = some (cert, key);
  config_file = file;
  removes_bootstrap = w.removes;
}
saved_config w cfg cert key (_, file) = record {
  ret = err_config;
  out_cfg = cfg;
  credentials = some (cert, key);
  config_file = file;
  removes_bootstrap = false;
}

-- Behind the parsed answer: the credentials, agent.conf, and the bootstrap file.
store : World → LeoError × Config × Bytes × Bytes → Enrolled
unfolding saved_config
store w (ok, cfg, cert, key) =
    if w.saves_credentials cert key
    then saved_config w cfg cert key (save w.config_room cfg)
    else stopped err_tls cfg
store w (e, cfg, cert, key) = stopped e cfg

-- `if (rc != LEO_OK) return rc;`
if_ok : {R : Type 0} → LeoError → R → (LeoError → R) → R
if_ok ok next fail = next
if_ok e next fail = fail e

module _ {Node : Type 0} (cj : Cjson Node) (w : World) where
  answered : Config → LeoError × Bytes × ℤ → Enrolled
  unfolding store if_ok
  answered cfg (e, text, status) =
      if_ok e (store w (parse_enroll_response cj text status cfg)) (λ rc. stopped rc cfg)

  posted : Config → Option (LeoError × Bytes × ℤ) → Option Enrolled
  unfolding answered
  posted cfg none = none
  posted cfg (some r) = some (answered cfg r)

  reach_server : Config → Bytes → Option Target → Option Enrolled
  unfolding posted
  reach_server cfg body none = some (stopped err_config cfg)
  reach_server cfg body (some target) = posted cfg (http_post_json (w.network target body) body)

  -- A request of no bytes is refused as well.
  requested : Bootstrap → Config → Option Bytes → Option Enrolled
  unfolding reach_server
  requested bs cfg none = some (stopped err_protocol cfg)
  requested bs cfg (some []) = some (stopped err_protocol cfg)
  requested bs cfg (some (c ∷ body)) =
      reach_server cfg (c ∷ body) (http_parse_url bs.api_endpoint 256 0)

  identified : Bootstrap → Config → Option Bytes → Option Enrolled
  unfolding requested
  identified bs cfg none = some (stopped err_system cfg)
  identified bs cfg (some id) =
      let known = record cfg { hardware_id = id } in
      requested bs known (build_enroll_request cj 2048 bs.enrollment_token known)

  started : Config → LeoError × Bootstrap → Option Enrolled
  unfolding identified detected
  started old (e, bs) =
      if_ok e (identified bs (detected w) (detect_hardware_id w.id_files))
        (λ rc. some (stopped err_config old))

  -- `leo_enroll`, on what `*out_cfg` held: none when the loop of the request is not over.
  pub leo_enroll : Config → Option Enrolled
  unfolding started
  leo_enroll old = started old (load_bootstrap w.bootstrap)
