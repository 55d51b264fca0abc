-- ===== src/Enroll/Http.antt =====
-- agent/src/enroll.c: the POST of the request, with what libwebsockets delivers as events.
pub mod Body
pub mod Ends
mod Tests
use leo_one.Prelude.{
  ltb, leb, ◌==◌, if◌then◌else◌, length, take, drop, Bytes, ℕ, suc, ◌+◌, ◌-◌, Bool, true, false,
  not, ◌||◌, Option, none, some, List, [], ◌∷◌, ◌++◌,
}
use leo_one.Prelude.Int.{ℤ, pos, negsuc}
use leo_one.Types.{max_msg_size, LeoError, ok, err_network}

-- _enroll_http_ctx_t. `written` has the chunks that lws_write was handed, each with the
-- flag that says whether it is the last one; `pending` is what lws_client_http_body_pending was told last, and
-- `asked` counts the calls of lws_callback_on_writable.
pub record HttpCtx : Type 0 where
  pub body : Bytes
  pub body_sent : ℕ
  pub resp : Bytes
  pub http_status : ℤ
  pub done : Bool
  pub failed : Bool
  pub written : List (Bytes × Bool)
  pub pending : Bool
  pub asked : ℕ

-- A callback, with what the library answers to the calls that it makes.
pub data Event : Type 0 where
  connection_error : Event
  established_http : ℤ → Event
  append_header : Bool → Event
  http_writeable : Bool → Event
  receive_http : Bool → Event
  receive_http_read : Bytes → Event
  completed_http : Event
  closed_http : Event
  other_event : Event

abbrev pub write_chunk : ℕ
write_chunk = 2048

-- `resp_buf` is filled up to its last byte but one.
pub accumulate : Bytes → Bytes → Bytes
accumulate resp data_in = resp ++ take (max_msg_size - 1 - length resp) data_in

-- The chunk that is written next.
abbrev pub next_chunk : HttpCtx → Bytes
next_chunk hc = take write_chunk (drop hc.body_sent hc.body)

-- `body_sent >= body_len` behind this chunk
abbrev pub is_last : HttpCtx → Bool
is_last hc = leb (length hc.body) (hc.body_sent + length (next_chunk hc))

-- LWS_CALLBACK_CLIENT_HTTP_WRITEABLE up to lws_write
pub write_body : HttpCtx → HttpCtx
write_body hc = record hc {
  body_sent = hc.body_sent + length (next_chunk hc);
  written = hc.written ++ ((next_chunk hc, is_last hc) ∷ []);
  pending = if is_last hc then false else hc.pending;
}

-- `if (!last) lws_callback_on_writable(wsi)`
pub after_write : HttpCtx → HttpCtx
after_write hc =
    if leb (length hc.body) hc.body_sent then hc else record hc { asked = suc hc.asked }

-- `_enroll_lws_callback`: the state, and whether it returns -1. What lws_callback_http_dummy returns
-- behind the switch is the library's own answer.
pub on_event : HttpCtx → Event → HttpCtx × Bool
unfolding accumulate write_body after_write
on_event hc connection_error = (record hc { done = true; failed = true }, false)
on_event hc (established_http status) = (record hc { http_status = status }, false)
on_event hc (append_header fits) =
    if fits then (record hc { pending = true; asked = suc hc.asked }, false) else (hc, true)
on_event hc (http_writeable accepted) =
    if accepted then (after_write (write_body hc), false) else (write_body hc, true)
on_event hc (receive_http accepted) = (hc, not accepted)
on_event hc (receive_http_read data_in) = (record hc { resp = accumulate hc.resp data_in }, false)
on_event hc completed_http = (record hc { done = true }, false)
on_event hc closed_http = (record hc { done = true }, false)
on_event hc other_event = (hc, false)

pub on_events : HttpCtx → List Event → HttpCtx
unfolding on_event
on_events hc [] = hc
on_events hc (e ∷ events) = on_events (on_event hc e).0 events

-- A turn of the loop: the callbacks of lws_service, whether it failed, and the clock behind it.
pub record Service : Type 0 where
  pub events : List Event
  pub broken : Bool
  pub now_sec : ℕ

service_step : ℕ → Service → (HttpCtx → Option HttpCtx) → HttpCtx → Option HttpCtx
service_step deadline s again hc =
    if s.broken || ltb deadline s.now_sec then some (record hc { failed = true }) else again hc

-- The loop `while (!hc.done)`: none when it is not over after these turns.
pub service_loop : ℕ → List Service → HttpCtx → Option HttpCtx
unfolding on_events service_step
service_loop deadline [] hc = if hc.done then some hc else none
service_loop deadline (s ∷ turns) hc =
    if hc.done
    then some hc
    else service_step deadline s (λ hc'. service_loop deadline turns hc') (on_events hc s.events)

abbrev pub opened : Bytes → HttpCtx
opened body = record {
  body = body;
  body_sent = 0;
  resp = [];
  http_status = pos 0;
  done = false;
  failed = false;
  written = [];
  pending = false;
  asked = 0;
}

abbrev pub timeout_sec : ℕ
timeout_sec = 15

-- What libwebsockets and the clock do: whether the context can be made, the callbacks that run while
-- the connection is set up, whether there is one then, the time, and the turns of the loop.
pub record Network : Type 0 where
  pub has_context : Bool
  pub on_connect : List Event
  pub has_wsi : Bool
  pub start_sec : ℕ
  pub turns : List Service

-- `resp_out` and `*status_out`
-- `hc.http_status == 0`
abbrev is_zero : ℤ → Bool
is_zero (pos n) = n == 0
is_zero (negsuc n) = false

answer : HttpCtx → LeoError × Bytes × ℤ
answer hc =
    if hc.failed || is_zero hc.http_status
    then (err_network, [], pos 0)
    else (ok, take (max_msg_size - 1) hc.resp, hc.http_status)

answer_if : Option HttpCtx → Option (LeoError × Bytes × ℤ)
unfolding answer
answer_if none = none
answer_if (some hc) = some (answer hc)

-- `_http_post_json`: none when its loop is not over after these turns.
unfoldable pub http_post_json : Network → Bytes → Option (LeoError × Bytes × ℤ)
unfolding answer_if service_loop
http_post_json net body =
    if not net.has_context || not net.has_wsi
    then some (err_network, [], pos 0)
    else answer_if (
        service_loop (net.start_sec + timeout_sec) net.turns
          (on_events (opened body) net.on_connect))
