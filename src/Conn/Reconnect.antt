-- ===== src/Conn/Reconnect.antt =====
-- The wait between two attempts of `_lws_thread`.
use leo_one.Prelude.{
  ltb, leb, if◌then◌else◌, Bool-cases, ℕ, zero, suc, ◌+◌, ◌*◌, ◌≤◌, ◌<◌, min, ◌≡◌, ◌⊎◌, inl, inr,
  Bool, true, false, not, ◌&&◌, Option, none, some, arith,
}
use leo_one.Conn.{
  Conn, create, established, writeable, wait_cancelled, closed, begin_attempt, end_attempt, backoff,
  ask_exit,
}
use leo_one.Protocol.Tree.{Cjson}
use leo_one.Protocol.{Stamp, build_hello}
use leo_one.Types.{reconnect_init_ms, max_msg_size, Config}
use leo_one.Conn.Wakeup.{Step, sends, opens, Reach, start, next, send-SameLink, send_built-SameLink}

-- `while (!should_stop && elapsed < delay)`: sleeps of 100 ms, on fuel. `stop_at` is the time of
-- this wait at which another thread sets `should_stop`, if one does.
pub is_stopped : Option ℕ → ℕ → Bool
is_stopped none elapsed = false
is_stopped (some t) elapsed = leb t elapsed

pub wait_loop : ℕ → Option ℕ → ℕ → ℕ → Option ℕ
unfolding is_stopped
wait_loop zero stop_at delay elapsed = none
wait_loop (suc fuel) stop_at delay elapsed =
    let rest = wait_loop fuel stop_at delay (elapsed + 100) in
    if not (is_stopped stop_at elapsed) && ltb elapsed delay then rest else some elapsed

-- `n` attempts in a row that fail.
pub backoffs : ℕ → Conn → Conn
unfolding backoff
backoffs zero c = c
backoffs (suc n) c = backoffs n (backoff c)

-- From a delay of at most 60 s, n failed attempts add 5 s each to the delay, up to 60 s.
pub delay-backoffs :
    (n : ℕ) (c : Conn)
    → c.reconnect_delay_ms ≤ 60000
    → (backoffs n c).reconnect_delay_ms ≡ min 60000 (c.reconnect_delay_ms + n * 5000)
unfolding backoffs
delay-backoffs zero c h = omega arith
delay-backoffs (suc n) c h = ground (arith, delay-backoffs n (backoff c))

IsDelay : Conn → Type 0
IsDelay c = (5000 ≤ c.reconnect_delay_ms) × (c.reconnect_delay_ms ≤ 60000)

Step-IsDelay :
    {Node : Type 0} {cj : Cjson Node} {cfg : Config} {c d : Conn}
    → IsDelay c
    → Step cj cfg c d
    → IsDelay d
unfolding IsDelay ask_exit closed end_attempt backoff begin_attempt wait_cancelled writeable
Step-IsDelay {c} v (sends msg) = ground (arith, send-SameLink c msg)
Step-IsDelay {cj} {cfg} {c} v (opens st h) =
    unfold established in
    let opened = record c {
      wsi = true;
      connected = true;
      reconnect_delay_ms = reconnect_init_ms;
    } in
    ground (arith, send_built-SameLink opened (build_hello cj cfg st max_msg_size))
Step-IsDelay v _ = ground arith

-- In every reachable state of the connection the next wait between two attempts lasts from 5 s to
-- 60 s.
pub Reach-IsDelay :
    {Node : Type 0} {cj : Cjson Node} {cfg : Config} {c : Conn}
    → Reach cj cfg c
    → (5000 ≤ c.reconnect_delay_ms) × (c.reconnect_delay_ms ≤ 60000)
unfolding IsDelay create
Reach-IsDelay start = omega arith
Reach-IsDelay (next r s) = Step-IsDelay (Reach-IsDelay r) s

-- A session that opens sets the delay back to 5 s.
pub delay-established :
    {Node : Type 0} (cj : Cjson Node) (cfg : Config) (st : Stamp) (c : Conn)
    → (established cj cfg st c).reconnect_delay_ms ≡ 5000
unfolding established
delay-established cj cfg st c =
    let opened = record c {
      wsi = true;
      connected = true;
      reconnect_delay_ms = reconnect_init_ms;
    } in
    (send_built-SameLink opened (build_hello cj cfg st max_msg_size)).same_delay

-- With fuel for a round each 100 ms, the wait between two attempts ends less than 100 ms past the delay, and before the
-- delay only if a stop was asked for by then.
pub wait_loop_ends :
    (fuel delay elapsed : ℕ) (stop_at : Option ℕ)
    → delay ≤ elapsed + 100 * fuel
    → elapsed < delay + 100
    → (r : ℕ) × (wait_loop (suc fuel) stop_at delay elapsed ≡ some r)
      × (r < delay + 100)
      × ((delay ≤ r) ⊎ (is_stopped stop_at r ≡ true))
unfolding wait_loop
wait_loop_ends zero delay elapsed stop_at h k = (elapsed, ground arith, k, inl (omega arith))
wait_loop_ends (suc fuel) delay elapsed stop_at h k =
    elim (Bool-cases (not (is_stopped stop_at elapsed) && ltb elapsed delay)) [
      | inl more ↦
          rw more (wait_loop_ends fuel delay (elapsed + 100) stop_at (omega arith) (ground arith))
      | inr over ↦ (elapsed, rw over, k, ground arith)
    ]
