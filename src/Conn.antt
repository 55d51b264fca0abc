-- ===== src/Conn.antt =====
-- agent/src/connection.c: the WSS connection, its send queue and its callbacks.
-- A function that updates `*conn` returns the new record. What libwebsockets remembers for the
-- connection stands beside the fields of `struct leo_conn`: `armed` is a pending
-- lws_callback_on_writable, `cancelled` a pending lws_cancel_service, and `wire` holds the payloads
-- that lws_write took, in order.
mod Tests
pub mod Fifo
pub mod Wakeup
pub mod Drain
pub mod Hello
pub mod Reconnect
use leo_one.Prelude.{
  ltb, leb, ◌==◌, if◌then◌else◌, length, get_or, set, take, replicate, Bytes, ℕ, ◌+◌, ◌-◌, ◌%◌,
  Bool, true, false, not, ◌&&◌, ◌||◌, Option, none, some, List, [], ◌∷◌, ◌++◌,
}
use leo_one.Types.{
  reconnect_init_ms, reconnect_step_ms, reconnect_max_ms, max_msg_size, send_queue_depth, Config,
  LeoError, ok, err_network, err_queue_full,
}
use leo_one.Protocol.Tree.{Cjson}
use leo_one.Protocol.{Stamp, build_hello}

pub record Conn : Type 0 where
  pub lws_ctx : Bool
  pub wsi : Bool
  pub send_queue : List Bytes
  pub queue_head : ℕ
  pub queue_tail : ℕ
  pub queue_count : ℕ
  pub connected : Bool
  pub should_stop : Bool
  pub attempt_failed : Bool
  pub reconnect_delay_ms : ℕ
  pub armed : Bool
  pub cancelled : Bool
  pub wire : List Bytes

-- What `leo_conn_create` leaves before its thread runs.
pub create : Conn
create = record {
  lws_ctx = false;
  wsi = false;
  send_queue = replicate send_queue_depth [];
  queue_head = 0;
  queue_tail = 0;
  queue_count = 0;
  connected = false;
  should_stop = false;
  attempt_failed = false;
  reconnect_delay_ms = reconnect_init_ms;
  armed = false;
  cancelled = false;
  wire = [];
}

-- `if (len > LEO_MAX_MSG_SIZE) len = LEO_MAX_MSG_SIZE`, and the copy of that length.
pub clip : Bytes → Bytes
clip msg = take max_msg_size msg

-- `leo_conn_send`, under the mutex.
pub enqueue : Conn → Bytes → Conn × LeoError
enqueue c msg = if leb send_queue_depth c.queue_count then (c, err_queue_full) else (
  record c {
    send_queue = set c.send_queue c.queue_tail msg;
    queue_tail = (c.queue_tail + 1) % send_queue_depth;
    queue_count = c.queue_count + 1;
    cancelled = c.lws_ctx || c.cancelled;
  },
  ok,
)

-- `leo_conn_send`, for a connection that exists.
pub send : Conn → Bytes → Conn × LeoError
send c msg =
    if length msg == 0
    then (c, err_network)
    else if not c.connected
    then (c, err_network)
    else enqueue c (clip msg)

-- The callers' `if (len > 0) leo_conn_send(conn, buf, len)`, on what a builder returned.
unfoldable pub send_built : Conn → Option Bytes → Conn × LeoError
send_built c none = (c, err_network)
send_built c (some msg) = if length msg == 0 then (c, err_network) else send c msg

-- LWS_CALLBACK_CLIENT_ESTABLISHED
pub established : {Node : Type 0} → Cjson Node → Config → Stamp → Conn → Conn
unfolding send_built
established cj cfg st c =
    let opened = record c {
      wsi = true;
      connected = true;
      reconnect_delay_ms = reconnect_init_ms;
    } in
    let greeted = (send_built opened (build_hello cj cfg st max_msg_size)).0 in
    record greeted { armed = true }

-- LWS_CALLBACK_CLIENT_RECEIVE: what the handler is given.
pub receive : Bytes → Option Bytes
receive msg = if length msg == 0 then none else some (clip msg)

-- LWS_CALLBACK_CLIENT_WRITEABLE; the flag says whether lws_write takes the payload.
pub writeable : Bool → Conn → Conn
writeable written c =
    if ltb 0 c.queue_count
    then record c {
      queue_head = (c.queue_head + 1) % send_queue_depth;
      queue_count = c.queue_count - 1;
      armed = ltb 0 (c.queue_count - 1);
      wire =
          if written then c.wire ++ (clip (get_or c.send_queue c.queue_head []) ∷ []) else c.wire;
    }
    else record c { armed = false }

-- LWS_CALLBACK_EVENT_WAIT_CANCELLED
pub wait_cancelled : Conn → Conn
wait_cancelled c = record c { armed = (c.wsi && ltb 0 c.queue_count) || c.armed; cancelled = false }

-- LWS_CALLBACK_CLIENT_CLOSED and LWS_CALLBACK_CLIENT_CONNECTION_ERROR
pub closed : Conn → Conn
closed c = record c { connected = false; wsi = false; attempt_failed = true; armed = false }

-- `_lws_thread`: a context is made and a connection begun, or it fails at one of the two calls.
pub begin_attempt : Bool → Bool → Conn → Conn
begin_attempt ctx_ok client_ok c =
    if not ctx_ok then c else record c { attempt_failed = false; lws_ctx = client_ok }

-- What `leo_conn_destroy` does before it waits for the thread.
pub ask_exit : Conn → Conn
ask_exit c = record c { should_stop = true; cancelled = c.lws_ctx || c.cancelled }

-- Behind the event loop.
pub end_attempt : Conn → Conn
end_attempt c = record c { lws_ctx = false; connected = false; armed = false; cancelled = false }

-- Behind the wait that follows `reconnect:`.
pub backoff : Conn → Conn
backoff c =
    let next = c.reconnect_delay_ms + reconnect_step_ms in
    record c { reconnect_delay_ms = if ltb reconnect_max_ms next then reconnect_max_ms else next }
