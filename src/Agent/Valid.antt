-- ===== src/Agent/Valid.antt =====
-- The invariant of the agent: slots, live threads, and what each thread was handed.
use native.Mathlib.Nat.{one-le-pow, zero-lt-suc, le-div_iff_mul-le, div-le_of_le-mul}
use leo_one.Prelude.{
  leb, if◌then◌else◌, length, all, All, length-take, Bytes, ℕ, ◌+◌, ◌*◌, ◌/◌, ◌^◌, ◌≤◌, ◌<◌, ◌≡◌,
  refl, Bool, true, false, Option, none, some, arith,
}
use leo_one.Prelude.Int.{ℤ, pos, negsuc}
use leo_one.Prelude.Double.{Double, nan, infinite, finite}
use leo_one.Protocol.Tree.{Cjson}
use leo_one.Conn.Wakeup.{IsValid, send_built-IsValid}
use leo_one.Agent.{
  Task, run_script, install_packages, reboot_host, apply_patches, fetch_file, gather_inventory,
  ExecCtx, Agent, Choices, clamp_timeout, json_number_clamped, is_name_byte, release_exec_slot,
  send_msg, send_cmd_error, spawn_detached, with_slot, launch,
}
use leo_one.Protocol.{Stamp}

-- A name of 1 to `most` bytes, all of them letters, digits or one of . + - _ :
abbrev pub IsName : ℕ → Bytes → Type 0
IsName most name = (0 < length name) × (length name ≤ most) × (all is_name_byte name ≡ true)

-- What a thread was handed lies within the bounds that agent.c states for its kind.
abbrev pub IsSafeTask : Task → ℕ → Type 0
IsSafeTask (run_script interpreter script) timeout =
    (length interpreter ≤ 31) × (0 < timeout) × (timeout ≤ 300)
IsSafeTask (install_packages names) timeout =
    (0 < length names)
    × (length names ≤ 32)
    × All (IsName 128) names
    × (0 < timeout)
    × (timeout ≤ 300)
IsSafeTask (reboot_host delay_sec) timeout = (delay_sec ≤ 3600) × (timeout ≡ 15)
IsSafeTask (apply_patches ids reboot_after) timeout =
    (0 < length ids) × (length ids ≤ 64) × All (IsName 159) ids × (0 < timeout) × (timeout ≤ 300)
IsSafeTask (fetch_file url name sha256_hex size) timeout =
    (0 < length url)
    × (length url ≤ 1023)
    × (0 < length name)
    × (length name ≤ 254)
    × (length sha256_hex ≤ 64)
    × (0 < timeout)
    × (timeout ≤ 7200)
IsSafeTask gather_inventory timeout = timeout ≡ 0

pub record IsSafe (ctx : ExecCtx) : Type 0 where
  pub id_fits : length ctx.cmd_id ≤ 36
  pub task_safe : IsSafeTask ctx.task ctx.timeout_secs

pub record IsAgent (ag : Agent) : Type 0 where
  pub counted : ag.exec_active_count ≡ length ag.running
  pub bounded : ag.exec_active_count ≤ 4
  pub safe : All IsSafe ag.running
  pub link : IsValid ag.conn

pub clamp_timeout_bounds : (z : ℤ) → (0 < clamp_timeout z) × (clamp_timeout z ≤ 300)
unfolding clamp_timeout
clamp_timeout_bounds (pos n) = ground arith
clamp_timeout_bounds (negsuc n) = ground arith

quotient_bounds : (m p lo hi : ℕ) → 1 ≤ p → (lo * p ≤ m → lo ≤ m / p) × (m ≤ hi * p → m / p ≤ hi)
quotient_bounds m p lo hi h = (
  λ a. (le-div_iff_mul-le {k = p} {x = lo} {y = m} h).1 a,
  λ a. div-le_of_le-mul p (ground arith),
)

-- For bounds in order, every number that a backend may send, NaN and the infinities included, comes out within the bounds.
pub json_number_clamped_bounds :
    (v : Double) (lo hi : ℕ)
    → lo ≤ hi
    → (lo ≤ json_number_clamped v lo hi) × (json_number_clamped v lo hi ≤ hi)
unfolding json_number_clamped
json_number_clamped_bounds nan lo hi h = ground arith
json_number_clamped_bounds (infinite s) lo hi h = ground arith
json_number_clamped_bounds (finite true m k) lo hi h = ground arith
json_number_clamped_bounds (finite false m k) lo hi h =
    let pow : 1 ≤ 2 ^ k = one-le-pow k 2 (zero-lt-suc 1) in
    ground (arith, quotient_bounds m (2 ^ k) lo hi pow)

pub by_if :
    (b : Bool) {x y : Agent}
    → (b ≡ true → IsAgent x)
    → (b ≡ false → IsAgent y)
    → IsAgent (if b then x else y)
by_if true f g = f refl
by_if false f g = g refl

by_reserve :
    (b : Bool) {refused reserved : Agent} (use_slot : Agent → Agent)
    → (b ≡ true → IsAgent refused)
    → (b ≡ false → IsAgent (use_slot reserved))
    → IsAgent (elim (if b then none else some reserved) [ none ↦ refused | some r ↦ use_slot r ])
by_reserve true use_slot f g = f refl
by_reserve false use_slot f g = g refl

module _ {Node : Type 0} (cj : Cjson Node) where
  pub send_msg-IsAgent :
      (ag : Agent) (built : Option Bytes) → IsAgent ag → IsAgent (send_msg cj ag built)
  unfolding send_msg
  send_msg-IsAgent ag built v = record {
    counted = v.counted;
    bounded = v.bounded;
    safe = v.safe;
    link = send_built-IsValid ag.conn built v.link;
  }

  pub send_cmd_error-IsAgent :
      (ag : Agent) (cmd_id err_msg : Bytes) (st : Stamp)
      → IsAgent ag
      → IsAgent (send_cmd_error cj ag cmd_id err_msg st)
  unfolding send_cmd_error
  send_cmd_error-IsAgent ag cmd_id err_msg st v = send_msg-IsAgent ag _ v

  -- A slot that is reserved and given back.
  released-IsAgent :
      (ag : Agent)
      → IsAgent ag
      → IsAgent (release_exec_slot (record ag { exec_active_count = ag.exec_active_count + 1 }))
  unfolding release_exec_slot
  released-IsAgent ag v = ground arith

  with_slot-IsAgent :
      (ag : Agent) (cmd_id : Bytes) (task : Task) (timeout : ℕ) (ch : Choices)
      → IsAgent ag
      → ag.exec_active_count < 4
      → IsSafeTask task timeout
      → IsAgent (
          with_slot cj
            (record ag { exec_active_count = ag.exec_active_count + 1 })
            cmd_id
            task
            timeout
            ch)
  unfolding with_slot spawn_detached
  with_slot-IsAgent ag cmd_id task timeout ch v h s =
      by_if ch.alloc
        (λ _.
          by_if ch.spawned
            (λ _. record {
              counted = ground (arith, v.counted);
              bounded = omega (arith, h);
              safe = (
                record { id_fits = omega (arith, length-take 36 cmd_id); task_safe = s },
                v.safe,
              );
              link = v.link;
            })
            (λ _. send_cmd_error-IsAgent _ cmd_id _ ch.stamp (released-IsAgent ag v)))
        (λ _. send_cmd_error-IsAgent _ cmd_id _ ch.stamp (released-IsAgent ag v))

  -- Whatever the system decides, the end that the dispatchers share keeps the invariant.
  pub launch-IsAgent :
      (ag : Agent) (cmd_id : Bytes) (task : Task) (timeout : ℕ) (ch : Choices)
      → IsAgent ag
      → IsSafeTask task timeout
      → IsAgent (launch cj ag cmd_id task timeout ch)
  unfolding launch
  launch-IsAgent ag cmd_id task timeout ch v s =
      by_reserve (leb 4 ag.exec_active_count) (λ r. with_slot cj r cmd_id task timeout ch)
        (λ _. send_cmd_error-IsAgent ag cmd_id _ ch.stamp v)
        (λ e. with_slot-IsAgent ag cmd_id task timeout ch v (ground arith) s)
