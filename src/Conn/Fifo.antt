-- ===== src/Conn/Fifo.antt =====
-- The send queue is a bounded FIFO: the ring of 32 slots against the list of pending messages.
use native.Mathlib.Numerals.{add-one}
use leo_one.Prelude.{
  leb, ◌==◌, if◌then◌else◌, Bool-cases, length, get_or, set, length-set, get_or-set_self,
  get_or-set_ne, Bytes, ℕ, zero, suc, ◌+◌, ◌-◌, ◌%◌, ◌≤◌, ◌<◌, ◌≡◌, refl, ap, ap₂, inl, inr, Bool,
  true, not, List, [], ◌∷◌, ◌++◌, arith,
}
use leo_one.Types.{LeoError, ok, err_network, err_queue_full}
use leo_one.Conn.{Conn, create, clip, enqueue, send, writeable}

-- What the mutex protects: every index in range, and the tail where head and count put it.
pub record IsRing (c : Conn) : Type 0 where
  pub slots : length c.send_queue ≡ 32
  pub head_in : c.queue_head < 32
  pub count_in : c.queue_count ≤ 32
  pub tail_at : c.queue_tail ≡ (c.queue_head + c.queue_count) % 32

-- The `n` messages from slot `h` on, round the end of the array.
abbrev pub window : List Bytes → ℕ → ℕ → List Bytes
window q h zero = []
window q h (suc n) = get_or q h [] ∷ window q ((h + 1) % 32) n

-- The messages that wait, oldest first.
abbrev pub pending : Conn → List Bytes
pending c = window c.send_queue c.queue_head c.queue_count

length-window : (q : List Bytes) (h n : ℕ) → length (window q h n) ≡ n
length-window q h zero = refl
length-window q h (suc n) = ap suc (length-window q ((h + 1) % 32) n)

pub length-pending : (c : Conn) → length (pending c) ≡ c.queue_count
length-pending c = length-window c.send_queue c.queue_head c.queue_count

window_of_pos :
    (q : List Bytes) (h n : ℕ)
    → 0 < n
    → window q h n ≡ get_or q h [] ∷ window q ((h + 1) % 32) (n - 1)
window_of_pos q h zero p = absurd (omega arith)
window_of_pos q h (suc n) p = ap (λ k. window q h (suc k)) (omega arith)

-- Writing just past a window extends it by the message.
window-set :
    (q : List Bytes) (x : Bytes) (n h i : ℕ)
    → length q ≡ 32
    → h < 32
    → n < 32
    → i ≡ (h + n) % 32
    → window (set q i x) h (suc n) ≡ window q h n ++ (x ∷ [])
window-set q x zero h i hs hh hn e =
    let e' : i ≡ h = omega arith in rw (e', get_or-set_self q h x [] (omega arith))
window-set q x (suc n) h i hs hh hn e =
    ap₂ ◌∷◌ (get_or-set_ne q {i = i} {j = h} x [] (omega arith))
      (window-set q x n ((h + 1) % 32) i hs (omega arith) (omega arith) (omega arith))

push-window :
    (q : List Bytes) (x : Bytes) (n h i : ℕ)
    → length q ≡ 32
    → h < 32
    → n < 32
    → i ≡ (h + n) % 32
    → window (set q i x) h (n + 1) ≡ window q h n ++ (x ∷ [])
push-window q x n h i hs hh hn e = rw add-one (window-set q x n h i hs hh hn e)

pub create-IsRing : IsRing create
unfolding create
create-IsRing = omega arith

-- The queue that `leo_conn_send` implements: it refuses an empty message and a closed connection,
-- then a thirty-third message, and otherwise appends the message, cut to its first 65536 bytes.
abbrev pub fifo_push : List Bytes → Bytes → List Bytes × LeoError
fifo_push q msg = if leb 32 (length q) then (q, err_queue_full) else (q ++ (msg ∷ []), ok)

abbrev pub fifo_send : Bool → List Bytes → Bytes → List Bytes × LeoError
fifo_send is_open q msg =
    if length msg == 0
    then (q, err_network)
    else if not is_open
    then (q, err_network)
    else fifo_push q (clip msg)

-- What a caller sees of a call's outcome.
abbrev pub view : Conn × LeoError → List Bytes × LeoError
view (c, status) = (pending c, status)

pub enqueue-IsRing : (c : Conn) (msg : Bytes) → IsRing c → IsRing (enqueue c msg).0
unfolding enqueue
enqueue-IsRing c msg v = ground (arith, length-set c.send_queue c.queue_tail msg)

enqueue_refines :
    (c : Conn) (msg : Bytes) → IsRing c → view (enqueue c msg) ≡ fifo_push (pending c) msg
unfolding enqueue
enqueue_refines c msg v = rw length-pending (elim (Bool-cases (leb 32 c.queue_count)) [
  | inl full ↦ rw full refl
  | inr room ↦ rw room (
      ap (λ q. (q, ok))
        (push-window c.send_queue msg c.queue_count c.queue_head c.queue_tail v.slots v.head_in
          (ground arith) v.tail_at))
])

pub send-IsRing : (c : Conn) (msg : Bytes) → IsRing c → IsRing (send c msg).0
unfolding send
send-IsRing c msg v = ground (arith, enqueue-IsRing c (clip msg) v)

-- On a well-formed ring, `leo_conn_send` is the bounded queue's send on the pending messages, its
-- status included.
pub send_refines :
    (c : Conn) (msg : Bytes) → IsRing c → view (send c msg) ≡ fifo_send c.connected (pending c) msg
unfolding send
send_refines c msg v = ground (arith, enqueue_refines c (clip msg) v)

pub writeable-IsRing : (c : Conn) (written : Bool) → IsRing c → IsRing (writeable written c)
unfolding writeable
writeable-IsRing c written v = ground arith

-- On a well-formed ring with a pending message, a writeable callback whose lws_write succeeds takes
-- the oldest one, hands it to lws_write, leaves the others in order and counts one message fewer.
pub writeable_refines :
    (c : Conn) (msg : Bytes) (rest : List Bytes)
    → IsRing c
    → pending c ≡ msg ∷ rest
    → (pending (writeable true c) ≡ rest)
      × ((writeable true c).wire ≡ c.wire ++ (clip msg ∷ []))
      × ((writeable true c).queue_count + 1 ≡ c.queue_count)
unfolding writeable
writeable_refines c msg rest v e =
    ground
      (arith, ap length e, length-pending c, window_of_pos c.send_queue c.queue_head c.queue_count)
