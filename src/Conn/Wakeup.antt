-- ===== src/Conn/Wakeup.antt =====
-- No lost wake-up: while the connection is up, a waiting message always has a callback to come.
use leo_one.Prelude.{Bytes, ◌≡◌, ◌≢◌, ◌⊎◌, Bool, true, false, Option, none, some, arith}
use leo_one.Types.{reconnect_init_ms, max_msg_size, Config}
use leo_one.Protocol.Tree.{Cjson}
use leo_one.Protocol.{Stamp, build_hello}
use leo_one.Conn.{
  Conn, create, enqueue, send, send_built, established, writeable, wait_cancelled, closed,
  begin_attempt, end_attempt, ask_exit, backoff,
}
use leo_one.Conn.Fifo.{IsRing, create-IsRing, send-IsRing, writeable-IsRing}

-- An open connection has its context and its wsi, and a message in the queue has asked for service.
pub record IsAwake (c : Conn) : Type 0 where
  pub has_ctx : c.connected ≡ true → c.lws_ctx ≡ true
  pub has_wsi : c.connected ≡ true → c.wsi ≡ true
  pub asked : c.connected ≡ true → c.queue_count ≢ 0 → (c.armed ≡ true) ⊎ (c.cancelled ≡ true)

pub record IsValid (c : Conn) : Type 0 where
  pub ring : IsRing c
  pub awake : IsAwake c

-- What may happen to a connection: a call by another thread, a callback in the state that it needs,
-- or a move of `_lws_thread` between two attempts.
pub data Step {Node : Type 0} (cj : Cjson Node) (cfg : Config) (c : Conn) : Conn → Type 0 where
  sends : (msg : Bytes) → Step cj cfg c (send c msg).0
  opens : (st : Stamp) → c.lws_ctx ≡ true → Step cj cfg c (established cj cfg st c)
  writes : (written : Bool) → c.armed ≡ true → Step cj cfg c (writeable written c)
  wakes : c.cancelled ≡ true → Step cj cfg c (wait_cancelled c)
  closes : c.lws_ctx ≡ true → Step cj cfg c (closed c)
  begins :
      (ctx_ok client_ok : Bool)
      → c.lws_ctx ≡ false
      → Step cj cfg c (begin_attempt ctx_ok client_ok c)
  ends : c.lws_ctx ≡ true → Step cj cfg c (end_attempt c)
  waits : c.lws_ctx ≡ false → Step cj cfg c (backoff c)
  stops : Step cj cfg c (ask_exit c)

pub data Reach {Node : Type 0} (cj : Cjson Node) (cfg : Config) : Conn → Type 0 where
  start : Reach cj cfg create
  next : {c d : Conn} → Reach cj cfg c → Step cj cfg c d → Reach cj cfg d

-- What no send touches.
pub record SameLink (c d : Conn) : Type 0 where
  pub same_ctx : d.lws_ctx ≡ c.lws_ctx
  pub same_wsi : d.wsi ≡ c.wsi
  pub same_connected : d.connected ≡ c.connected
  pub same_delay : d.reconnect_delay_ms ≡ c.reconnect_delay_ms
  pub same_wire : d.wire ≡ c.wire

pub send-SameLink : (c : Conn) (msg : Bytes) → SameLink c (send c msg).0
unfolding send enqueue
send-SameLink c msg = ground arith

pub send_built-SameLink : (c : Conn) (built : Option Bytes) → SameLink c (send_built c built).0
unfolding send_built
send_built-SameLink c none = ground arith
send_built-SameLink c (some msg) = ground (arith, send-SameLink c msg)

pub send_built-IsRing : (c : Conn) (built : Option Bytes) → IsRing c → IsRing (send_built c built).0
unfolding send_built
send_built-IsRing c none v = v
send_built-IsRing c (some msg) v = ground (arith, send-IsRing c msg v)

send-IsAwake : (c : Conn) (msg : Bytes) → IsAwake c → IsAwake (send c msg).0
unfolding send enqueue
send-IsAwake c msg v = ground arith

pub sent-IsValid : (c : Conn) (msg : Bytes) → IsValid c → IsValid (send c msg).0
sent-IsValid c msg v = record {
  ring = send-IsRing c msg v.ring;
  awake = send-IsAwake c msg v.awake;
}

pub send_built-IsValid :
    (c : Conn) (built : Option Bytes) → IsValid c → IsValid (send_built c built).0
unfolding send_built
send_built-IsValid c none v = v
send_built-IsValid c (some msg) v = ground (arith, sent-IsValid c msg v)

established-IsAwake :
    {Node : Type 0} (cj : Cjson Node) (cfg : Config) (st : Stamp) (c : Conn)
    → c.lws_ctx ≡ true
    → IsAwake (established cj cfg st c)
unfolding established
established-IsAwake cj cfg st c h =
    let opened = record c {
      wsi = true;
      connected = true;
      reconnect_delay_ms = reconnect_init_ms;
    } in
    ground (arith, send_built-SameLink opened (build_hello cj cfg st max_msg_size))

pub established-IsRing :
    {Node : Type 0} (cj : Cjson Node) (cfg : Config) (st : Stamp) (c : Conn)
    → IsRing c
    → IsRing (established cj cfg st c)
unfolding established
established-IsRing cj cfg st c v =
    let opened = record c {
      wsi = true;
      connected = true;
      reconnect_delay_ms = reconnect_init_ms;
    } in
    let ring : IsRing opened = ground arith in
    let sent = send_built-IsRing opened (build_hello cj cfg st max_msg_size) ring in
    record {
      slots = sent.slots;
      head_in = sent.head_in;
      count_in = sent.count_in;
      tail_at = sent.tail_at;
    }

pub writeable-IsAwake : (c : Conn) (written : Bool) → IsAwake c → IsAwake (writeable written c)
unfolding writeable
writeable-IsAwake c written v = ground arith

wait_cancelled-IsAwake : (c : Conn) → IsAwake c → IsAwake (wait_cancelled c)
unfolding wait_cancelled
wait_cancelled-IsAwake c v = ground arith

begin_attempt-IsAwake :
    (c : Conn) (ctx_ok client_ok : Bool)
    → c.lws_ctx ≡ false
    → IsAwake c
    → IsAwake (begin_attempt ctx_ok client_ok c)
unfolding begin_attempt
begin_attempt-IsAwake c ctx_ok client_ok h v = ground arith

pub ask_exit-IsValid : (c : Conn) → IsValid c → IsValid (ask_exit c)
unfolding ask_exit
ask_exit-IsValid c v = record { ring = ground arith; awake = ground arith }

-- Every step keeps the ring well formed and the connection awake.
pub Step-IsValid :
    {Node : Type 0} {cj : Cjson Node} {cfg : Config} {c d : Conn}
    → IsValid c
    → Step cj cfg c d
    → IsValid d
unfolding closed end_attempt backoff begin_attempt wait_cancelled
Step-IsValid {c} v (sends msg) = record {
  ring = send-IsRing c msg v.ring;
  awake = send-IsAwake c msg v.awake;
}
Step-IsValid {cj} {cfg} {c} v (opens st h) = record {
  ring = established-IsRing cj cfg st c v.ring;
  awake = established-IsAwake cj cfg st c h;
}
Step-IsValid {c} v (writes written h) = record {
  ring = writeable-IsRing c written v.ring;
  awake = writeable-IsAwake c written v.awake;
}
Step-IsValid {c} v (wakes h) = record {
  ring = ground arith;
  awake = unfold wait_cancelled in wait_cancelled-IsAwake c v.awake;
}
Step-IsValid {c} v (closes h) = ground arith
Step-IsValid {c} v (begins ctx_ok client_ok h) = record {
  ring = ground arith;
  awake = begin_attempt-IsAwake c ctx_ok client_ok h v.awake;
}
Step-IsValid {c} v (ends h) = ground arith
Step-IsValid {c} v (waits h) = ground arith
Step-IsValid {c} v stops = ask_exit-IsValid c v

create-IsAwake : IsAwake create
unfolding create
create-IsAwake = ground arith

pub create-IsValid : IsValid create
create-IsValid = record { ring = create-IsRing; awake = create-IsAwake }

-- In every state that the threads and the callbacks can reach, the send queue is a well-formed ring,
-- and if the connection is up then it has its context and its wsi, and a waiting message has a
-- writeable callback armed or a wake-up of the event loop pending.
pub Reach-IsValid :
    {Node : Type 0} {cj : Cjson Node} {cfg : Config} {c : Conn} → Reach cj cfg c → IsValid c
Reach-IsValid start = create-IsValid
Reach-IsValid (next r s) = Step-IsValid (Reach-IsValid r) s
