-- ===== src/Conn/Hello.antt =====
-- What a new session sends first.
use leo_one.Prelude.{
  leb, if◌then◌else◌, length, Bytes, ◌≡◌, ap, ◌∙◌, ◌≢◌, true, some, List, [], ◌∷◌, ◌++◌, arith,
}
use leo_one.Types.{reconnect_init_ms, max_msg_size, Config}
use leo_one.Protocol.Tree.{Cjson}
use leo_one.Protocol.{Stamp, build_hello}
use leo_one.Conn.{
  Conn, clip, send, send_built, established, writeable, closed, begin_attempt, end_attempt, backoff,
}
use leo_one.Conn.Fifo.{IsRing, pending, fifo_push, send_refines, writeable_refines}
use leo_one.Conn.Wakeup.{send_built-SameLink, established-IsRing}

-- A connection that is lost and opened again: its context is dropped, the wait goes by, a new
-- attempt is made and succeeds.
pub reopened : {Node : Type 0} → Cjson Node → Config → Stamp → Conn → Conn
unfolding closed end_attempt backoff begin_attempt established
reopened cj cfg st c =
    established cj cfg st (begin_attempt true true (backoff (end_attempt (closed c))))

send_built-some : (c : Conn) (msg : Bytes) → length msg ≢ 0 → send_built c (some msg) ≡ send c msg
unfolding send_built
send_built-some c msg ne = ground arith

established-pending :
    {Node : Type 0} (cj : Cjson Node) (cfg : Config) (st : Stamp) (c : Conn) (msg : Bytes)
    → IsRing c
    → build_hello cj cfg st max_msg_size ≡ some msg
    → length msg ≢ 0
    → pending (established cj cfg st c) ≡ (fifo_push (pending c) (clip msg)).0
unfolding established
established-pending cj cfg st c msg v e ne =
    let opened = record c {
      wsi = true;
      connected = true;
      reconnect_delay_ms = reconnect_init_ms;
    } in
    let ring : IsRing opened = ground arith in
    ap (λ b. pending (send_built opened b).0) e
    ∙ ap (λ r. pending r.0) (send_built-some opened msg ne)
    ∙ ap (λ r. r.0) (send_refines opened msg ring)
    ∙ ground arith

-- After a reconnection, from a well-formed ring and with a HELLO that is built and not empty, the
-- HELLO stands behind all that the lost session left in the queue, and is dropped if 32 messages are
-- left.
pub reopened-pending :
    {Node : Type 0} (cj : Cjson Node) (cfg : Config) (st : Stamp) (c : Conn) (msg : Bytes)
    → IsRing c
    → build_hello cj cfg st max_msg_size ≡ some msg
    → length msg ≢ 0
    → pending (reopened cj cfg st c)
      ≡ (if leb 32 (length (pending c)) then pending c else pending c ++ (clip msg ∷ []))
unfolding reopened
reopened-pending cj cfg st c msg v e ne =
    established-pending cj cfg st (begin_attempt true true (backoff (end_attempt (closed c)))) msg
      (unfold begin_attempt backoff end_attempt closed in ground arith) e ne
    ∙ unfold begin_attempt backoff end_attempt closed in ground arith

before_opening-IsRing :
    (c : Conn) → IsRing c → IsRing (begin_attempt true true (backoff (end_attempt (closed c))))
unfolding begin_attempt backoff end_attempt closed
before_opening-IsRing c v = ground arith

wire-reopened :
    {Node : Type 0} (cj : Cjson Node) (cfg : Config) (st : Stamp) (c : Conn)
    → (reopened cj cfg st c).wire ≡ c.wire
unfolding reopened established begin_attempt backoff end_attempt closed
wire-reopened cj cfg st c = (send_built-SameLink _ (build_hello cj cfg st max_msg_size)).same_wire

-- After a reconnection, from a well-formed ring in which a message was left and with a HELLO that is
-- built and not empty, the first payload that the new session writes is the oldest message of the lost
-- one.
pub reopened_stale_first :
    {Node : Type 0} (cj : Cjson Node) (cfg : Config) (st : Stamp) (c : Conn) (msg old : Bytes)
    (rest : List Bytes)
    → IsRing c
    → build_hello cj cfg st max_msg_size ≡ some msg
    → length msg ≢ 0
    → pending c ≡ old ∷ rest
    → (writeable true (reopened cj cfg st c)).wire ≡ c.wire ++ (clip old ∷ [])
reopened_stale_first cj cfg st c msg old rest v e ne p =
    let r = reopened cj cfg st c in
    let full = leb 32 (length (pending c)) in
    let queue : pending r ≡ old ∷ (if full then rest else rest ++ (clip msg ∷ [])) =
      reopened-pending cj cfg st c msg v e ne ∙ ground arith in
    let ring : IsRing r =
      unfold reopened in established-IsRing cj cfg st _ (before_opening-IsRing c v) in
    (writeable_refines r old (if full then rest else rest ++ (clip msg ∷ [])) ring queue).1
    ∙ ap (λ w. w ++ (clip old ∷ [])) (wire-reopened cj cfg st c)
