-- ===== src/FileTransfer/Run.antt =====
-- agent/src/file_transfer.c, `leo_file_transfer_run`: from the check of the file name to the rename.
pub mod Received
pub mod Safe
pub mod Ends
mod Tests
use leo_one.Prelude.{
  ltb, leb, ◌==◌, if◌then◌else◌, length, take, all, Bytes, bytes, starts_with, ℕ, ◌+◌, Bool, true,
  false, not, ◌&&◌, ◌||◌, Option, none, some, List, [], ◌∷◌, ◌++◌,
}
use leo_one.Types.{
  uuid_str_max, workdir, file_url_max_len, file_name_max_len, downloading, verifying, completed,
  failed, LeoError, ok, err_network, err_protocol, err_system, err_timeout,
}
use leo_one.Prelude.Int.{pos}
use leo_one.Prelude.Decimal.{decimal, print_int}
use leo_one.Protocol.{Stamp}
use leo_one.Protocol.Tree.{Cjson}
use leo_one.Conn.{Conn}
use leo_one.Pinning.{bytes_to_hex, str_case_eq}
use leo_one.FileTransfer.{Download, Event, in_256, is_200, report_progress, on_event}
use leo_one.Url.{Target, http_parse_url}

-- `strstr(name, "..")`
pub has_dot_dot : Bytes → Bool
has_dot_dot [] = false
has_dot_dot (c ∷ s) = starts_with (bytes "..") (c ∷ s) || has_dot_dot s

-- `_filename_valid`
pub filename_valid : Bytes → Bool
unfolding has_dot_dot
filename_valid name =
    if length name == 0 || leb file_name_max_len (length name)
    then false
    else if has_dot_dot name
    then false
    else all (λ c. not (c == b'/' || c == b'\\')) name

-- What the system says of the steps before the download, `none` for no error and no result, and the
-- clock when the deadline is set.
pub record Setup : Type 0 where
  pub workdir_made : Bool
  pub open_error : Option Bytes
  pub digest_ready : Bool
  pub context_made : Bool
  pub connected : Bool
  pub start_sec : ℕ

-- One round of the loop: the callbacks of one lws_service, whether it returns an error, and the
-- clock behind it.
pub record Round : Type 0 where
  pub events : List Event
  pub service_failed : Bool
  pub now_sec : ℕ

-- What the system says of the end: the digest of the bytes received comes from OpenSSL, and fclose, whose
-- result is not looked at, leaves in the file what it can of the bytes that were written.
pub record Ending : Type 0 where
  pub sha256 : Bytes → Bytes
  pub fclose : Bytes → Bytes
  pub rename_error : Option Bytes

-- The result: the error code, the final path, the error text, the file in the working directory if one
-- was put in place, and the connection.
pub record Finished : Type 0 where
  pub code : LeoError
  pub final_path : Bytes
  pub err_out : Bytes
  pub placed : Option (Bytes × Bytes)
  pub conn : Conn

-- A failure; the error buffer has 256 bytes.
abbrev give_up : LeoError → Bytes → Conn → Finished
give_up code err c = record {
  code = code;
  final_path = bytes "";
  err_out = in_256 err;
  placed = none;
  conn = c;
}

-- `effective_timeout`
abbrev pub effective_timeout : ℕ → ℕ
effective_timeout timeout_secs = if ltb 30 timeout_secs then timeout_secs else 30

-- The first 32 bytes of the digest in hexadecimal.
pub digest_hex : Bytes → Bytes
digest_hex d = bytes_to_hex (take 32 d)

module _ {Node : Type 0} (cj : Cjson Node) where
  pub on_events : Download → List Event → Download
  on_events dl [] = dl
  on_events dl (e ∷ es) = on_events (on_event cj dl e) es

  -- `while (!dl.done)`, up to a deadline: the download and the code so far, or `none` where the rounds given run out.
  pub download_loop : ℕ → Download → List Round → Option (Download × LeoError)
  unfolding on_events
  download_loop deadline dl [] = if dl.done then some (dl, ok) else none
  download_loop deadline dl (r ∷ rs) =
      let served = on_events dl r.events in
      let rest = download_loop deadline served rs in
      if dl.done
      then some (dl, ok)
      else if r.service_failed
      then some (
        record served {
          has_failed = true;
          err_buf = bytes "Erreur du client HTTP pendant le transfert";
        },
        ok,
      )
      else if ltb deadline r.now_sec
      then some (
        record served {
          has_failed = true;
          err_buf =
              in_256 (bytes "Timeout du transfert (" ++ (decimal dl.limit_secs ++ bytes "s)"));
        },
        err_timeout,
      )
      else rest

  abbrev or_network : LeoError → LeoError
  or_network ok = err_network
  or_network e = e

  -- A file that is in place, or the rename that failed.
  rename_part : Download → Bytes → Ending → Option Bytes → Stamp → Finished
  rename_part dl filename ending (some err) st =
      let text =
        in_256
          (bytes "Renommage vers '" ++ (workdir ++ (filename ++ (bytes "' échoué : " ++ err)))) in
      give_up err_system text (report_progress cj dl failed (some text) st).link
  rename_part dl filename ending none st = record {
    code = ok;
    final_path = workdir ++ filename;
    err_out = bytes "";
    placed = some (workdir ++ filename, ending.fclose dl.content);
    conn = (report_progress cj (record dl { last_reported_pct = pos 100 }) completed none st).link;
  }

  -- `expected[0] != '\0' && strcasecmp(digest_hex, expected) != 0`
  pub digest_differs : Bytes → Bytes → Bool
  digest_differs computed expected =
      not (length expected == 0) && not (str_case_eq computed expected)

  verify_part : Download → Bytes → Bytes → Ending → Stamp → Finished
  unfolding rename_part digest_hex digest_differs
  verify_part dl filename expected ending st =
      let computed = digest_hex (ending.sha256 dl.content) in
      if digest_differs computed expected
      then (let text = in_256 (
            bytes "Empreinte SHA-256 non correspondante (attendue "
            ++ (expected ++ (bytes ", obtenue " ++ (computed ++ bytes ")")))) in
          give_up err_protocol text (report_progress cj dl failed (some text) st).link)
      else rename_part dl filename ending ending.rename_error st

  -- Behind the loop; each of the two messages has its own stamp.
  pub conclude : Download × LeoError → Bytes → Bytes → Ending → Stamp → Stamp → Finished
  unfolding verify_part
  conclude (dl, code) filename expected ending st st' =
      if dl.has_failed || not (is_200 dl.http_status)
      then give_up (or_network code) dl.err_buf
          (report_progress cj dl failed (some (in_256 dl.err_buf)) st).link
      else verify_part (report_progress cj dl verifying none st) filename expected ending st'

  -- The download as it is begun, its first message sent.
  begin_download : Conn → Bytes → ℕ → Stamp → Download
  begin_download c cmd_id size st =
      report_progress cj
        (record {
          content = [];
          bytes_received = 0;
          bytes_total = size;
          last_reported_pct = pos 0;
          link = c;
          dl_cmd_id = take uuid_str_max cmd_id;
          http_status = pos 0;
          limit_secs = 0;
          done = false;
          has_failed = false;
          err_buf = bytes "";
        })
        downloading none st

  -- The rest of the download: the connection to the server, the loop, the end. `none`: the rounds run
  -- out before the download ends.
  fetch :
      Target
      → Download
      → Setup
      → Bytes
      → Bytes
      → ℕ
      → List Round
      → Ending
      → Stamp
      → Stamp
      → Option Finished
  unfolding download_loop conclude
  fetch target dl setup filename expected timeout_secs rounds ending st st' =
      if not setup.context_made
      then some
          (give_up err_network (bytes "Impossible de créer le contexte HTTP libwebsockets") dl.link)
      else if not setup.connected
      then some (
          give_up err_network
            (bytes "Connexion au serveur de fichiers échouée ("
              ++ (target.host ++ (bytes ":" ++ (print_int target.port ++ bytes ")"))))
            dl.link)
      else elim (download_loop (setup.start_sec + effective_timeout timeout_secs)
          (record dl { limit_secs = effective_timeout timeout_secs }) rounds) [
            | none ↦ none
            | some result ↦ some (conclude result filename expected ending st st')
          ]

  -- Behind the check of the file name and of the URL.
  prepare :
      Target
      → Conn
      → Bytes
      → Setup
      → Bytes
      → Bytes
      → ℕ
      → ℕ
      → List Round
      → Ending
      → Stamp
      → Stamp
      → Stamp
      → Option Finished
  unfolding fetch begin_download
  prepare target c cmd_id setup filename expected size timeout_secs rounds ending st st' st'' =
      if not setup.workdir_made
      then some (
          give_up err_system
            (bytes "Impossible de créer le répertoire de travail (" ++ (workdir ++ bytes ")")) c)
      else elim setup.open_error [
        | some err ↦ some (
            give_up err_system
              (bytes "Impossible de créer '"
                ++ (workdir ++ (take uuid_str_max cmd_id ++ (bytes ".part' : " ++ err))))
              c)
        | none ↦
            if not setup.digest_ready
            then some (give_up err_system (bytes "Initialisation SHA-256 échouée") c)
            else fetch target (begin_download c cmd_id size st) setup filename expected timeout_secs
                rounds ending st' st''
      ]

  -- `leo_file_transfer_run`
  pub run :
      Conn
      → Bytes
      → Bytes
      → Bytes
      → Bytes
      → ℕ
      → ℕ
      → Setup
      → List Round
      → Ending
      → Stamp
      → Stamp
      → Stamp
      → Option Finished
  unfolding prepare filename_valid
  run c cmd_id url filename expected size timeout_secs setup rounds ending st st' st'' =
      if not (filename_valid filename)
      then some (give_up err_protocol (bytes "Nom de fichier invalide") c)
      else elim (http_parse_url url 256 file_url_max_len) [
        | none ↦ some (give_up err_protocol (bytes "URL de téléchargement invalide") c)
        | some target ↦
            prepare target c cmd_id setup filename expected size timeout_secs rounds ending st st'
              st''
      ]
