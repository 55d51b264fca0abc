-- ===== src/Conn/Drain.antt =====
-- The send queue drains: one writeable callback for each message hands all of them to lws_write.
use leo_one.Prelude.{
  length, get_or, Bytes, ℕ, zero, suc, ◌+◌, ◌%◌, ◌≡◌, ap, ◌≢◌, ◌⊎◌, true, List, [], ◌∷◌, ◌++◌, map,
  append-nil, append_assoc, arith,
}
use leo_one.Conn.{Conn, clip, writeable}
use leo_one.Conn.Fifo.{window, pending, length-pending, writeable-IsRing, writeable_refines}
use leo_one.Conn.Wakeup.{IsValid, writeable-IsAwake}

-- Writeable callbacks one after the other, whose lws_write succeeds.
abbrev pub writes : ℕ → Conn → Conn
writes zero c = c
writes (suc n) c = writes n (writeable true c)

-- In front of each of them, as long as the connection is up, a callback is asked for or a wake-up of the
-- event loop, which asks for one, is pending.
abbrev pub AreAsked : ℕ → Conn → Type 0
AreAsked zero c = Unit
AreAsked (suc n) c =
    (c.connected ≡ true → (c.armed ≡ true) ⊎ (c.cancelled ≡ true)) × AreAsked n (writeable true c)

writeable-IsValid : (c : Conn) → IsValid c → IsValid (writeable true c)
writeable-IsValid c v = record {
  ring = writeable-IsRing c true v.ring;
  awake = writeable-IsAwake c true v.awake;
}

pending-uncons :
    (n : ℕ) (c : Conn)
    → c.queue_count ≡ suc n
    → (msg : Bytes) × (rest : List Bytes) × (pending c ≡ msg ∷ rest)
pending-uncons n c e = (
  get_or c.send_queue c.queue_head [],
  window c.send_queue ((c.queue_head + 1) % 32) n,
  ap (window c.send_queue c.queue_head) e,
)

-- From a valid connection, as many writeable callbacks whose lws_write succeeds as there are messages hand
-- all of them to lws_write, in the order of the queue, and leave the queue empty; and in front of each of
-- them, as long as the connection is up, a callback is asked for or a wake-up of the event loop is pending.
pub drains :
    (n : ℕ) (c : Conn)
    → IsValid c
    → c.queue_count ≡ n
    → ((writes n c).wire ≡ c.wire ++ map clip (pending c))
      × ((writes n c).queue_count ≡ 0)
      × AreAsked n c
drains zero c v e = (ground (arith, append-nil c.wire), e, tt)
drains (suc n) c v e =
    let (msg, rest, p) = pending-uncons n c e in
    let out = writeable_refines c msg rest v.ring p in
    let some_wait : c.queue_count ≢ 0 = omega (arith, e) in
    let fewer : (writeable true c).queue_count ≡ n = omega (
      arith,
      length-pending c,
      length-pending (writeable true c),
      e,
      ap length p,
      ap length out.0,
    ) in
    let (sent, empty, asked) = drains n (writeable true c) (writeable-IsValid c v) fewer in
    (
      rw (sent, out.1, p, out.0) (append_assoc c.wire (clip msg ∷ []) (map clip rest)),
      empty,
      ((λ up. v.awake.asked up some_wait), asked),
    )
