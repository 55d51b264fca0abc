-- ===== src/FileTransfer/Counted.antt =====
-- The counter of a download.
use leo_one.Prelude.{length, length-append, ◌%◌, ◌^◌, ◌≡◌, none, some, arith}
use leo_one.Protocol.Tree.{Cjson}
use leo_one.FileTransfer.{
  Download, Event, connection_error, response, chunk, http_closed, timer, report_progress,
  after_write, write_chunk, respond, on_event,
}

-- The bytes in the file are as many as the counter says.
pub record IsCounted (dl : Download) : Type 0 where
  pub counted : dl.bytes_received ≡ length dl.content % 2 ^ 64

-- Every callback of a download keeps the counter of the bytes received equal to the length of what was
-- written, modulo 2^64.
pub on_event-IsCounted :
    {Node : Type 0} (cj : Cjson Node) (dl : Download) (e : Event)
    → IsCounted dl
    → IsCounted (on_event cj dl e)
unfolding on_event write_chunk after_write report_progress respond
on_event-IsCounted cj dl (connection_error reason) v = record { counted = v.counted }
on_event-IsCounted cj dl (response status content_length) v = ground arith
on_event-IsCounted cj dl (chunk data_in (some err) st) v = ground arith
on_event-IsCounted cj dl (chunk data_in none st) v =
    ground (arith, length-append dl.content data_in)
on_event-IsCounted cj dl http_closed v = record { counted = v.counted }
on_event-IsCounted cj dl timer v = record { counted = v.counted }
