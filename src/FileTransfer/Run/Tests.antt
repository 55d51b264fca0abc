-- ===== src/FileTransfer/Run/Tests.antt =====
-- A file of two bytes, with and without a server that answers.
use leo_one.Prelude.{
  replicate, Bytes, bytes, starts_with, ◌≡◌, refl, inl, arith, true, false, none, some, List, [],
  ◌∷◌,
}
use leo_one.Types.{ok}
use leo_one.Prelude.Int.{pos}
use leo_one.Protocol.Fixtures.{toy, some_stamp}
use leo_one.Conn.{create}
use leo_one.Url.Tests.{file_url, file_url_parsed}
use leo_one.FileTransfer.{
  Download, response, chunk, http_closed, percent, report_progress, after_write, write_chunk,
  respond, on_event,
}
use leo_one.FileTransfer.Run.{
  has_dot_dot, filename_valid, Setup, Round, Ending, Finished, on_events, download_loop, conclude,
  begin_download, fetch, prepare, run,
}
use leo_one.FileTransfer.Run.Safe.{IsSafeEnd, run_safe}
use leo_one.FileTransfer.Run.Ends.{run_ends}

abbrev name_ok : Bytes
name_ok = bytes "a.txt"

abbrev zeros : Bytes
zeros = bytes "0000000000000000000000000000000000000000000000000000000000000000"

abbrev all_well : Setup
all_well = record {
  workdir_made = true;
  open_error = none;
  digest_ready = true;
  context_made = true;
  connected = true;
  start_sec = 100;
}

abbrev zero_digest : Ending
zero_digest = record { sha256 = λ x. replicate 32 0; fclose = λ x. x; rename_error = none }

abbrev answered : List Round
answered =
    record {
      events = response (pos 200) none ∷ chunk (bytes "hi") none some_stamp ∷ http_closed ∷ [];
      service_failed = false;
      now_sec = 101;
    }
    ∷ []

abbrev silent : List Round
silent = record { events = []; service_failed = false; now_sec = 161 } ∷ []

abbrev fetched : Download
fetched =
    on_events toy
      (record (begin_download toy create (bytes "c-1") 2 some_stamp) { limit_secs = 60 })
      (response (pos 200) none ∷ chunk (bytes "hi") none some_stamp ∷ http_closed ∷ [])

abbrev ended : Finished
ended = conclude toy (fetched, ok) name_ok zeros zero_digest some_stamp some_stamp

run-ended :
    run toy create
      (bytes "c-1")
      file_url
      name_ok
      zeros
      2
      60
      all_well
      answered
      zero_digest
      some_stamp
      some_stamp
      some_stamp
    ≡ some ended
unfolding run prepare fetch download_loop on_events begin_download filename_valid has_dot_dot
    on_event report_progress after_write write_chunk respond percent starts_with
run-ended = rw file_url_parsed refl

run_safe_example : IsSafeEnd name_ok zeros (bytes "hi") zero_digest ended
run_safe_example =
    run_safe toy create (bytes "c-1") file_url name_ok zeros 2 60 all_well answered zero_digest
      some_stamp some_stamp some_stamp ended run-ended

run_ends_example :
    (f : Finished) × (run toy create
        (bytes "c-1")
        file_url
        name_ok
        zeros
        2
        60
        all_well
        silent
        zero_digest
        some_stamp
        some_stamp
        some_stamp
      ≡ some f)
run_ends_example =
    run_ends toy create (bytes "c-1") file_url name_ok zeros 2 60 all_well silent zero_digest
      some_stamp some_stamp some_stamp (60, omega arith, omega arith, inl (omega arith))

abbrev empty_download : Download
empty_download = record {
  content = [];
  bytes_received = 0;
  bytes_total = 2;
  last_reported_pct = pos 0;
  link = create;
  dl_cmd_id = bytes "c-1";
  http_status = pos 200;
  limit_secs = 60;
  done = false;
  has_failed = false;
  err_buf = [];
}
