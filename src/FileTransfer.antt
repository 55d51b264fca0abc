-- ===== src/FileTransfer.antt =====
-- agent/src/file_transfer.c: the state of one download, its progress messages, and what each callback
-- of libwebsockets does to it.
pub mod Run
pub mod Counted
use leo_one.Prelude.{
  ltb, leb, ◌==◌, if◌then◌else◌, length, take, Bytes, bytes, ℕ, ◌+◌, ◌-◌, ◌*◌, ◌/◌, ◌%◌, ◌^◌, min,
  Bool, true, false, not, ◌&&◌, ◌||◌, Option, none, some, [], ◌∷◌, ◌++◌,
}
use leo_one.Types.{TransferStatus, downloading}
use leo_one.Prelude.Int.{ℤ, pos, negsuc, of_bits32}
use leo_one.Prelude.Decimal.{decimal, print_int, scan, skip_spaces}
use leo_one.Protocol.{Stamp, build_file_transfer_progress}
use leo_one.Protocol.Tree.{Cjson}
use leo_one.Conn.{Conn, send_built}

-- `_dl_ctx_t`, with the bytes that the open file holds, which are those that the digest has seen.
pub record Download : Type 0 where
  pub content : Bytes
  pub bytes_received : ℕ
  pub bytes_total : ℕ
  pub last_reported_pct : ℤ
  pub link : Conn
  pub dl_cmd_id : Bytes
  pub http_status : ℤ
  pub limit_secs : ℕ
  pub done : Bool
  pub has_failed : Bool
  pub err_buf : Bytes

-- A callback of `_dl_lws_callback`, with what libwebsockets and the disk say in it. `response` has the
-- text of the Content-Length header, if lws_hdr_copy copies one; `chunk` the error text of a write that fails.
pub data Event : Type 0 where
  connection_error : (reason : Bytes) → Event
  response : (status : ℤ) → (content_length : Option Bytes) → Event
  chunk : (data_in : Bytes) → (write_error : Option Bytes) → (st : Stamp) → Event
  http_closed timer : Event

-- What snprintf leaves in a buffer of 256 bytes.
abbrev pub in_256 : Bytes → Bytes
in_256 s = take 255 s

-- `(int)((received * 100) / total)`, 0 where the total is not known
pub percent : Download → ℤ
percent dl =
    if ltb 0 dl.bytes_total
    then of_bits32 (dl.bytes_received * 100 % 2 ^ 64 / dl.bytes_total % 2 ^ 32)
    else pos 0

-- `strtoull(s, NULL, 10)`
strtoull_digits : Bytes → ℕ
unfolding scan
strtoull_digits s = min (scan 0 s) (2 ^ 64 - 1)

strtoull_signed : Bytes → ℕ
unfolding strtoull_digits
strtoull_signed [] = 0
strtoull_signed (c ∷ s) =
    if c == b'-'
    then (2 ^ 64 - strtoull_digits s) % 2 ^ 64
    else if c == b'+'
    then strtoull_digits s
    else strtoull_digits (c ∷ s)

strtoull : Bytes → ℕ
unfolding strtoull_signed skip_spaces
strtoull s = strtoull_signed (skip_spaces s)

header_total : Option Bytes → ℕ
unfolding strtoull
header_total none = 0
header_total (some s) = if length s == 0 then 0 else strtoull s

-- `pct >= last_reported_pct + 10`
abbrev reaches : ℤ → ℤ → Bool
reaches (pos p) (pos last) = leb (last + 10) p
reaches (pos p) (negsuc last) = leb 10 (p + last + 1)
reaches (negsuc p) (pos last) = false
reaches (negsuc p) (negsuc last) = leb (p + 11) (last + 1)

-- `http_status == 200`
abbrev pub is_200 : ℤ → Bool
is_200 (pos n) = n == 200
is_200 (negsuc n) = false

module _ {Node : Type 0} (cj : Cjson Node) where
  -- `_report_progress`
  pub report_progress : Download → TransferStatus → Option Bytes → Stamp → Download
  unfolding percent send_built
  report_progress dl status err st = record dl {
    link =
        (send_built dl.link (
          build_file_transfer_progress cj dl.dl_cmd_id status (percent dl) dl.bytes_received
            dl.bytes_total err st 1024)).0;
  }

  -- Behind a write: the counters, and a message each 10 %, or each MiB where the total is not known.
  after_write : Download → Bytes → Stamp → Download
  unfolding report_progress percent
  after_write dl data_in st =
      let fed = record dl {
        content = dl.content ++ data_in;
        bytes_received = (dl.bytes_received + length data_in) % 2 ^ 64;
      } in
      if reaches (percent fed) fed.last_reported_pct
        || ((fed.bytes_total == 0) && ltb (fed.bytes_received % 1_048_576) (length data_in))
      then report_progress (record fed { last_reported_pct = percent fed }) downloading none st
      else fed

  write_chunk : Download → Bytes → Option Bytes → Stamp → Download
  unfolding after_write
  write_chunk dl data_in (some err) st = record dl {
    has_failed = true;
    err_buf = in_256 (bytes "Écriture disque échouée : " ++ err);
  }
  write_chunk dl data_in none st = after_write dl data_in st

  -- LWS_CALLBACK_ESTABLISHED_CLIENT_HTTP
  respond : Download → ℤ → Option Bytes → Download
  unfolding header_total
  respond dl status content_length =
      let sized = record dl {
        http_status = status;
        bytes_total = if dl.bytes_total == 0 then header_total content_length else dl.bytes_total;
      } in
      if is_200 status then sized else record sized {
        has_failed = true;
        err_buf =
            in_256 (bytes "Réponse HTTP " ++ (print_int status ++ bytes " du serveur de fichiers"));
      }

  -- `_dl_lws_callback`
  pub on_event : Download → Event → Download
  unfolding respond write_chunk
  on_event dl (connection_error reason) = record dl {
    err_buf = in_256 (bytes "Connexion au serveur de fichiers échouée : " ++ reason);
    has_failed = true;
    done = true;
  }
  on_event dl (response status content_length) = respond dl status content_length
  on_event dl (chunk data_in write_error st) =
      if ltb 0 (length data_in) && not dl.has_failed
      then write_chunk dl data_in write_error st
      else dl
  on_event dl http_closed = record dl { done = true }
  on_event dl timer = record dl {
    has_failed = true;
    done = true;
    err_buf = in_256 (bytes "Timeout du transfert (" ++ (decimal dl.limit_secs ++ bytes "s)"));
  }
