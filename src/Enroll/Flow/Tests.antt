-- ===== src/Enroll/Flow/Tests.antt =====
-- agent/src/enroll.c: an enrollment that succeeds.
use leo_one.Prelude.{
  Bytes, length, take, bytes, str_eq, starts_with, find_index, ◌≡◌, refl, ◌↔◌, true, false, none,
  some, [], ◌∷◌, ◌++◌, arith,
}
use leo_one.Prelude.Int.{pos}
use leo_one.Prelude.Decimal.{skip_spaces}
use leo_one.Types.{Config, ok}
use leo_one.Protocol.Tree.{Json, string, object, end, field, Cjson}
use leo_one.Protocol.Fixtures.{toy}
use leo_one.Settings.{
  fgets, read_lines, c_string, trim_end, trim, key_value, blank, load, config_text, save,
}
use leo_one.Settings.Tests.{enrolled, enrolled-CanSave}
use leo_one.Url.{parse_authority, parse_target, http_parse_url}
use leo_one.Enroll.Bootstrap.{load_bootstrap}
use leo_one.Enroll.Machine.{
  detect_hostname, chomp, detect_os_version, x86_64, detect_arch, detect_hardware_id,
}
use leo_one.Enroll.Http.{
  established_http, append_header, http_writeable, receive_http_read, completed_http, Network,
  http_post_json,
}
use leo_one.Enroll.Response.{build_enroll_request, parse_enroll_response}
use leo_one.Enroll.Flow.{World, Enrolled, leo_enroll}
use leo_one.Pinning.Files.{Disk, write_file, mkdir_p, save_cert_key}
use leo_one.Pinning.Files.Stored.{IsReadable}
use leo_one.Pinning.Files.Tests.{sound_disk, sound_disk-IsReadable}
use leo_one.Enroll.Flow.Credentials.{Loads, leo_enroll-load_cert_key}
use leo_one.Enroll.Flow.Stored.{IsOutcome, leo_enroll-IsOutcome, leo_enroll-load}

abbrev answer_tree : Json
answer_tree = object (
    field (bytes "data")
      (object (
        field (bytes "agent_id") (string enrolled.agent_id) (
          field (bytes "tenant_id") (string enrolled.tenant_id) (
            field (bytes "ws_endpoint") (string enrolled.ws_endpoint) (
              field (bytes "server_cert_fingerprint") (string enrolled.ca_fingerprint) (
                field (bytes "client_cert_pem") (string (bytes "C"))
                  (field (bytes "client_key_pem") (string (bytes "K")) end)))))))
      end)

abbrev backend : Cjson Json
backend = record toy { parse = λ s. some answer_tree }

abbrev exchange : Network
exchange = record {
  has_context = true;
  on_connect = append_header true ∷ [];
  has_wsi = true;
  start_sec = 100;
  turns =
      record {
        events =
            http_writeable true
            ∷ established_http (pos 201)
            ∷ receive_http_read (bytes "A")
            ∷ completed_http
            ∷ [];
        broken = false;
        now_sec = 101;
      }
      ∷ [];
}

abbrev stored_config : Config
stored_config = record enrolled {
  metrics_interval_sec = pos 300;
  heartbeat_interval_sec = pos 10800;
}

abbrev machine : World
machine = record {
  bootstrap =
      some (bytes "enrollment_token = tok" ++ (b'\n' ∷ bytes "api_endpoint=https://rmm.example"));
  hostname = some enrolled.hostname;
  os_release = none;
  uname_release = some enrolled.os_version;
  processor = x86_64;
  id_files = none ∷ some (bytes "h" ++ (b'\n' ∷ [])) ∷ [];
  network = λ target body. exchange;
  saves_credentials = λ cert key. true;
  config_room = some (length (config_text stored_config));
  removes = true;
}

abbrev registered : Enrolled
registered = record {
  ret = ok;
  out_cfg = stored_config;
  credentials = some (bytes "C", bytes "K");
  config_file = some (take (length (config_text stored_config)) (config_text stored_config));
  removes_bootstrap = true;
}

machine-leo_enroll : leo_enroll backend machine blank ≡ some registered
unfolding leo_enroll load_bootstrap key_value c_string trim skip_spaces trim_end read_lines fgets
    str_eq find_index detect_hostname detect_os_version detect_arch detect_hardware_id
    build_enroll_request http_parse_url parse_target parse_authority starts_with http_post_json
    parse_enroll_response save chomp
machine-leo_enroll = refl

leo_enroll-IsOutcome_example : IsOutcome machine registered
leo_enroll-IsOutcome_example =
    leo_enroll-IsOutcome backend machine blank registered machine-leo_enroll

leo_enroll-load_example :
    ((load registered.config_file blank).1 ≡ registered.out_cfg)
    × (((load registered.config_file blank).0 ≡ ok)
        ↔ (length registered.out_cfg.ca_fingerprint ≡ 64))
leo_enroll-load_example =
    leo_enroll-load backend machine blank blank registered (length (config_text stored_config))
      machine-leo_enroll refl
      (
        enrolled-CanSave.0,
        (enrolled-CanSave.1.0, (enrolled-CanSave.1.1.0, (omega arith, omega arith))),
      )
      refl (omega arith)

-- A disk that takes all that is written.
abbrev room_disk : Disk
room_disk = record sound_disk { fwrite = length; fclose = λ path. 8192 }

room_disk-IsReadable : IsReadable room_disk
room_disk-IsReadable x = sound_disk-IsReadable x

room_disk-ok :
    (cert key : Bytes)
    → machine.saves_credentials cert key ≡ true
    → (save_cert_key room_disk [] (some cert) (some key)).1 ≡ ok
unfolding save_cert_key write_file mkdir_p
room_disk-ok cert key h = ground arith

leo_enroll-load_cert_key_example : Loads room_disk [] registered.credentials
leo_enroll-load_cert_key_example =
    leo_enroll-load_cert_key backend machine room_disk [] blank registered room_disk-IsReadable
      (room_disk-ok, omega arith, omega arith) machine-leo_enroll refl
