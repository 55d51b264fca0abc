-- ===== src/Enroll/Http/Tests.antt =====
-- agent/src/enroll.c: the callbacks of a request.
use leo_one.Prelude.{bytes, true, false, List, [], ◌∷◌}
use leo_one.Prelude.Int.{pos}
use leo_one.Enroll.Http.{
  Event, established_http, append_header, http_writeable, receive_http_read, completed_http,
  on_events, opened, Network,
}
use leo_one.Enroll.Http.Body.{IsExchange, on_events-IsExchange}

abbrev callbacks : List Event
callbacks =
    append_header true
    ∷ http_writeable true
    ∷ established_http (pos 200)
    ∷ receive_http_read (bytes "ok")
    ∷ http_writeable false
    ∷ completed_http
    ∷ []

on_events-IsExchange_example : IsExchange (on_events (opened (bytes "body")) callbacks)
on_events-IsExchange_example = on_events-IsExchange (bytes "body") callbacks

abbrev silent : Network
silent = record {
  has_context = true;
  on_connect = [];
  has_wsi = true;
  start_sec = 100;
  turns =
      record { events = []; broken = false; now_sec = 115 }
      ∷ record { events = []; broken = false; now_sec = 116 }
      ∷ [];
}
