-- ===== src/Settings/Tests.antt =====
-- agent/src/config.c: concrete configurations and files.
use leo_one.Prelude.{
  leb, ◌==◌, leb→le, length, replicate, all, All, Bytes, bytes, str_eq, find_index, ℕ, ◌≤◌, ◌≡◌,
  refl, inl, true, not, ◌&&◌, some, [], ◌∷◌, ◌++◌, arith,
}
use leo_one.Prelude.Int.{pos}
use leo_one.Prelude.Decimal.{skip_spaces}
use leo_one.Types.{Config, ok, err_config}
use leo_one.Settings.{
  fgets, read_lines, c_string, trim_end, trim, key_value, blank, is_valid, parse_text, config_text,
  load, save,
}
use leo_one.Settings.Values.{Plain, IsValue}
use leo_one.Settings.RoundTrip.{CanSave, load-save}
use leo_one.Settings.Fits.{load-Missing}
use leo_one.Settings.Lines.{flatten, read_lines_whole}

abbrev pub enrolled : Config
enrolled = record {
  agent_id = bytes "7f3d";
  tenant_id = bytes "t1";
  ws_endpoint = bytes "wss://rmm.example/ws";
  hostname = bytes "srv 1";
  os_name = bytes "linux";
  os_version = bytes "Debian GNU/Linux 12";
  arch = bytes "amd64";
  hardware_id = bytes "h";
  ca_fingerprint = replicate 64 b'a';
  metrics_interval_sec = pos 60;
  heartbeat_interval_sec = pos 30;
}

Plain-of_test : (s : Bytes) → all (λ c. not (c == b'\n') && not (c == 0)) s ≡ true → All Plain s
Plain-of_test [] h = tt
Plain-of_test (c ∷ s) h = ((λ e. ground arith, λ e. ground arith), Plain-of_test s (ground arith))

IsValue-of_test :
    (room : ℕ) (s : Bytes)
    → all (λ c. not (c == b'\n') && not (c == 0)) s ≡ true
    → skip_spaces s ≡ s
    → trim_end s ≡ s
    → leb (length s) room ≡ true
    → IsValue room s
IsValue-of_test room s h k l m = (Plain-of_test s h, (k, (l, leb→le (length s) room m)))

pub enrolled-CanSave : CanSave enrolled
unfolding skip_spaces trim_end
enrolled-CanSave = (
  (
    IsValue-of_test 36 enrolled.agent_id refl refl refl refl,
    (
      IsValue-of_test 36 enrolled.tenant_id refl refl refl refl,
      IsValue-of_test 511 enrolled.ws_endpoint refl refl refl refl,
    ),
  ),
  (
    (
      IsValue-of_test 255 enrolled.hostname refl refl refl refl,
      (
        IsValue-of_test 31 enrolled.os_name refl refl refl refl,
        IsValue-of_test 127 enrolled.os_version refl refl refl refl,
      ),
    ),
    (
      (
        IsValue-of_test 15 enrolled.arch refl refl refl refl,
        (
          IsValue-of_test 36 enrolled.hardware_id refl refl refl refl,
          IsValue-of_test 64 enrolled.ca_fingerprint refl refl refl refl,
        ),
      ),
      (omega arith, omega arith),
    ),
  ),
)

pub enrolled-is_valid : is_valid enrolled ≡ true
unfolding is_valid
enrolled-is_valid = refl

load-save_example :
    load (save (some (length (config_text enrolled))) enrolled).1 blank ≡ (ok, enrolled)
load-save_example =
    load-save (length (config_text enrolled)) enrolled blank enrolled-CanSave (omega arith)
      enrolled-is_valid

-- A line that is longer than its field, and one without an `=`.
abbrev odd_text : Bytes
odd_text = bytes "arch = 0123456789abcdefgh" ++ (b'\n' ∷ bytes "tenant_id")

load-Missing_example : load (some odd_text) enrolled ≡ (err_config, parse_text odd_text)
load-Missing_example = load-Missing odd_text enrolled (
    inl (
      unfold key_value c_string trim skip_spaces trim_end read_lines fgets find_index str_eq in
      (refl, (tt, tt))))

read_lines_whole_example :
    (flatten (read_lines 3 9 (bytes "ab=cde\nf")) ≡ bytes "ab=cde\nf")
    × All (λ l. length l ≤ 3) (read_lines 3 9 (bytes "ab=cde\nf"))
read_lines_whole_example = read_lines_whole 3 9 (bytes "ab=cde\nf") (omega arith) (omega arith)
