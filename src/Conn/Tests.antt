-- ===== src/Conn/Tests.antt =====
-- The connection at concrete states.
use leo_one.Prelude.{
  set, replicate, Bytes, bytes, ◌≡◌, refl, true, false, List, [], ◌∷◌, ◌++◌, map, arith,
}
use leo_one.Conn.{Conn, create, clip, send, established, writeable, begin_attempt}
use leo_one.Conn.Fifo.{IsRing, pending, fifo_send, view, send_refines}
use leo_one.Conn.Wakeup.{IsValid, sends, opens, begins, Reach, start, next, Reach-IsValid}
use leo_one.Conn.Drain.{writes, AreAsked, drains}
use leo_one.Conn.Hello.{reopened, reopened_stale_first}
use leo_one.Protocol.Tests.{hello_built}
use leo_one.Protocol.Fixtures.{toy, some_config, some_stamp}

abbrev first : Bytes
first = bytes "first"

-- A connection that is open with one message in its queue.
abbrev busy : Conn
busy = (send (established toy some_config some_stamp (begin_attempt true true create)) first).0

busy_reached : Reach toy some_config busy
unfolding create begin_attempt
busy_reached =
    next (next (next start (begins true true refl)) (opens some_stamp refl)) (sends first)

Reach-IsValid_example : IsValid busy
Reach-IsValid_example = Reach-IsValid {cj = toy} {cfg = some_config} busy_reached

-- The ring as an open session leaves it: two messages wait.
abbrev ring : List Bytes
ring = set (set (replicate 32 []) 0 first) 1 (bytes "second")

abbrev open_conn : Conn
open_conn = record {
  lws_ctx = true;
  wsi = true;
  send_queue = ring;
  queue_head = 0;
  queue_tail = 2;
  queue_count = 2;
  connected = true;
  should_stop = false;
  attempt_failed = false;
  reconnect_delay_ms = 5000;
  armed = true;
  cancelled = false;
  wire = [];
}

open_conn-IsRing : IsRing open_conn
open_conn-IsRing = ground arith

open_conn-IsValid : IsValid open_conn
open_conn-IsValid = record { ring = open_conn-IsRing; awake = ground arith }

send_refines_example :
    view (send open_conn (bytes "third")) ≡ fifo_send true (pending open_conn) (bytes "third")
send_refines_example = send_refines open_conn (bytes "third") open_conn-IsRing

drains_example :
    ((writes 2 open_conn).wire ≡ open_conn.wire ++ map clip (pending open_conn))
    × ((writes 2 open_conn).queue_count ≡ 0)
    × AreAsked 2 open_conn
drains_example = drains 2 open_conn open_conn-IsValid refl

reopened_stale_first_example :
    (writeable true (reopened toy some_config some_stamp open_conn)).wire
    ≡ open_conn.wire ++ (clip first ∷ [])
reopened_stale_first_example =
    reopened_stale_first toy some_config some_stamp open_conn (bytes "{}") first
      (bytes "second" ∷ []) open_conn-IsRing hello_built (λ h. ground arith) refl
