-- ===== src/Agent/Threads/Over.antt =====
-- agent/src/agent.c: what is over when `leo_agent_stop` frees the agent.
use leo_one.Prelude.{
  ◌==◌, if◌then◌else◌, length, get_elem?, ℕ, ◌≡◌, refl, sym, ap, ◌∙◌, Bool, true, false, not, ◌||◌,
  Option, some, none, List, [], ◌∷◌, arith,
}
use leo_one.Types.{Config, Metrics, Patch}
use leo_one.Protocol.{Stamp}
use leo_one.Protocol.Tree.{Cjson}
use leo_one.Agent.Valid.{IsAgent}
use leo_one.Agent.{ExecCtx, Agent, send_msg}
use leo_one.Agent.Exec.{Executor}
use leo_one.Agent.Threads.{stop_threads, heartbeat_round, metrics_round, patch_round}
use leo_one.Agent.Threads.Keeps.{stop_threads-IsAgent}
use leo_one.Agent.Threads.Stop.{
  Stage, draining, closing_desktop, closing_conn, freed, abandoned, Waits, after_drain, stop_stage,
  IsQuiet, Stopping, begins, goes_on, others,
}
use leo_one.Agent.Reach.{
  Step, receives, finishes, inventories, beats, measures, patches, links, forgets, signals, stops,
  Step-IsAgent, Reach-IsAgent,
}
use leo_one.Conn.{ask_exit}
use leo_one.Conn.Wakeup.{ask_exit-IsValid}
use leo_one.Desktop.{Desktop, forget, signal_exit, finish, stop_all, wait_thread_exit, ask_stop}

-- What a stage has behind it.
abbrev IsOver : Stage → Agent → Type 0
IsOver draining ag = Unit
IsOver closing_desktop ag = ag.running ≡ []
IsOver abandoned ag = Unit
IsOver stage ag = (ag.running ≡ []) × (ag.desktop.thread_running ≡ false)

none_running : (xs : List ExecCtx) → length xs ≡ 0 → xs ≡ []
none_running [] h = refl
none_running (x ∷ xs) h = absurd (omega (arith, h))

IsOver-by :
    (b : Bool) (s t : Stage) (ag : Agent)
    → (b ≡ true → IsOver s ag)
    → (b ≡ false → IsOver t ag)
    → IsOver (if b then s else t) ag
IsOver-by true s t ag f g = f refl
IsOver-by false s t ag f g = g refl

abbrev waited : Bool → Bool → Desktop → Desktop × Bool
waited runs exits d = if runs then if exits then (finish d, true) else (d, false) else (d, true)

wait_by :
    (runs exits : Bool) (d : Desktop)
    → d.thread_running ≡ runs
    → (waited runs exits d).1 ≡ true
    → (waited runs exits d).0.thread_running ≡ false
unfolding finish
wait_by true true d e h = refl
wait_by true false d e h = absurd (ground (arith, h))
wait_by false exits d e h = e

stop_all-joined :
    (d : Desktop) (exits : Bool)
    → (stop_all d exits).1 ≡ true
    → (stop_all d exits).0.thread_running ≡ false
unfolding stop_all wait_thread_exit
stop_all-joined d exits h = wait_by (ask_stop d).thread_running exits (ask_stop d) refl h

stop_stage-IsOver :
    (stage : Stage) (ag : Agent) (w : Waits)
    → IsAgent ag
    → IsOver stage ag
    → IsOver (stop_stage stage ag w).0 (stop_stage stage ag w).1
unfolding stop_stage after_drain
stop_stage-IsOver draining ag w v h =
    IsOver-by (ag.exec_active_count == 0) closing_desktop
      (if w.drain_goes_on then draining else abandoned) ag
      (λ drained. none_running ag.running (ground (arith, drained, v.counted)))
      (λ _. IsOver-by w.drain_goes_on draining abandoned ag (λ _. tt) (λ _. tt))
stop_stage-IsOver closing_desktop ag w v h =
    IsOver-by (stop_all ag.desktop w.session_exits).1 closing_conn abandoned
      (record ag { desktop = (stop_all ag.desktop w.session_exits).0 })
      (λ exited. (h, stop_all-joined ag.desktop w.session_exits exited)) (λ _. tt)
stop_stage-IsOver closing_conn ag w v h =
    IsOver-by w.conn_joins freed abandoned (record ag { conn = ask_exit ag.conn }) (λ _. h)
      (λ _. tt)
stop_stage-IsOver freed ag w v h = h
stop_stage-IsOver abandoned ag w v h = tt

stop_stage-IsAgent :
    (stage : Stage) (ag : Agent) (w : Waits) → IsAgent ag → IsAgent (stop_stage stage ag w).1
unfolding stop_stage
stop_stage-IsAgent draining ag w v = v
stop_stage-IsAgent closing_desktop ag w v = record {
  counted = v.counted;
  bounded = v.bounded;
  safe = v.safe;
  link = v.link;
}
stop_stage-IsAgent closing_conn ag w v = record {
  counted = v.counted;
  bounded = v.bounded;
  safe = v.safe;
  link = ask_exit-IsValid ag.conn v.link;
}
stop_stage-IsAgent freed ag w v = v
stop_stage-IsAgent abandoned ag w v = v

-- Nothing of what a stage has behind it is begun again: the threads and the session's thread are those
-- of before.
abbrev Same : Agent → Agent → Type 0
Same ag ag' = (ag'.running ≡ ag.running) × (ag'.desktop ≡ ag.desktop)

Same-if : (b : Bool) (ag x y : Agent) → Same ag x → Same ag y → Same ag (if b then x else y)
Same-if true ag x y f g = f
Same-if false ag x y f g = g

Same-fst :
    (b : Bool) (ag : Agent) (x y : Agent × ℕ)
    → Same ag x.0
    → Same ag y.0
    → Same ag (if b then x else y).0
Same-fst true ag x y f g = f
Same-fst false ag x y f g = g

stop_threads-Same : (ag : Agent) → Same ag (stop_threads ag)
unfolding stop_threads
stop_threads-Same ag = (refl, refl)

Same-IsOver : (stage : Stage) (ag ag' : Agent) → Same ag ag' → IsOver stage ag → IsOver stage ag'
Same-IsOver draining ag ag' s h = tt
Same-IsOver closing_desktop ag ag' s h = s.0 ∙ h
Same-IsOver closing_conn ag ag' s h = (s.0 ∙ h.0, ap (λ d. d.thread_running) s.1 ∙ h.1)
Same-IsOver freed ag ag' s h = (s.0 ∙ h.0, ap (λ d. d.thread_running) s.1 ∙ h.1)
Same-IsOver abandoned ag ag' s h = tt

-- No detached thread ends where none is alive.
empty-none : {A : Type 0} (i : ℕ) (ctx : ExecCtx) → get_elem? [] i ≡ some ctx → A
empty-none i ctx h = absurd (ground (arith, h))

IsOver-empty :
    (stage : Stage) (ag ag' : Agent) (i : ℕ) (ctx : ExecCtx)
    → get_elem? ag.running i ≡ some ctx
    → IsOver stage ag
    → IsOver stage ag'
IsOver-empty draining ag ag' i ctx e h = tt
IsOver-empty closing_desktop ag ag' i ctx e h =
    empty-none i ctx (sym (ap (λ r. get_elem? r i) h) ∙ e)
IsOver-empty closing_conn ag ag' i ctx e h =
    empty-none i ctx (sym (ap (λ r. get_elem? r i) h.0) ∙ e)
IsOver-empty freed ag ag' i ctx e h = empty-none i ctx (sym (ap (λ r. get_elem? r i) h.0) ∙ e)
IsOver-empty abandoned ag ag' i ctx e h = tt

forget-IsOver :
    (stage : Stage) (ag : Agent)
    → IsOver stage ag
    → IsOver stage (record ag { desktop = forget ag.desktop })
unfolding forget
forget-IsOver draining ag h = tt
forget-IsOver closing_desktop ag h = h
forget-IsOver closing_conn ag h = h
forget-IsOver freed ag h = h
forget-IsOver abandoned ag h = tt

signal_exit-IsOver :
    (stage : Stage) (ag : Agent)
    → IsOver stage ag
    → IsOver stage (record ag { desktop = signal_exit ag.desktop })
unfolding signal_exit
signal_exit-IsOver draining ag h = tt
signal_exit-IsOver closing_desktop ag h = h
signal_exit-IsOver closing_conn ag h = (h.0, refl)
signal_exit-IsOver freed ag h = (h.0, refl)
signal_exit-IsOver abandoned ag h = tt

module _ {Node : Type 0} (cj : Cjson Node) where
  heartbeat_round-Same :
      (ag : Agent) (seq : ℕ) (st : Stamp) → Same ag (heartbeat_round cj ag seq st).0
  unfolding heartbeat_round send_msg
  heartbeat_round-Same ag seq st =
      Same-fst ag.threads_stop ag (ag, seq) _ (refl, refl)
        (Same-fst (not ag.conn.connected) ag (record ag { force_heartbeat_pending = false }, seq) _
          (refl, refl) (refl, refl))

  metrics_round-Same :
      (ag : Agent) (m : Option Metrics) (st : Stamp) → Same ag (metrics_round cj ag m st)
  unfolding metrics_round send_msg
  metrics_round-Same ag none st = (refl, refl)
  metrics_round-Same ag (some m) st =
      Same-if (ag.threads_stop || not ag.conn.connected) ag ag _ (refl, refl) (refl, refl)

  patch_round-Same :
      (ag : Agent) (ps : Option (List Patch)) (st : Stamp) → Same ag (patch_round cj ag ps st)
  unfolding patch_round send_msg
  patch_round-Same ag none st = (refl, refl)
  patch_round-Same ag (some ps) st =
      Same-if (ag.threads_stop || not ag.conn.connected) ag ag _ (refl, refl) (refl, refl)

Step-IsOver :
    {Node : Type 0} {cj : Cjson Node} {ex : Executor} {ag ag' : Agent} (stage : Stage)
    (s : Step cj ex ag ag')
    → IsQuiet stage s
    → IsOver stage ag
    → IsOver stage ag'
Step-IsOver {ag} draining s q h = tt
Step-IsOver {ag} stage (receives json_str ch) q h = absurd (ground (arith, q))
Step-IsOver {ag} {ag'} stage (finishes i ctx st e) q h = IsOver-empty stage ag ag' i ctx e h
Step-IsOver {ag} {ag'} stage (inventories i ctx inv st st' e) q h =
    IsOver-empty stage ag ag' i ctx e h
Step-IsOver {cj} {ag} {ag'} stage (beats seq st) q h =
    Same-IsOver stage ag ag' (heartbeat_round-Same cj ag seq st) h
Step-IsOver {cj} {ag} {ag'} stage (measures m st) q h =
    Same-IsOver stage ag ag' (metrics_round-Same cj ag m st) h
Step-IsOver {cj} {ag} {ag'} stage (patches ps st) q h =
    Same-IsOver stage ag ag' (patch_round-Same cj ag ps st) h
Step-IsOver {ag} {ag'} stage (links c l) q h = Same-IsOver stage ag ag' (refl, refl) h
Step-IsOver {ag} stage forgets q h = forget-IsOver stage ag h
Step-IsOver {ag} stage signals q h = signal_exit-IsOver stage ag h
Step-IsOver {ag} {ag'} stage stops q h = Same-IsOver stage ag ag' (stop_threads-Same ag) h

Stopping-IsOver :
    {Node : Type 0} {cj : Cjson Node} {ex : Executor} {cfg : Config} {stage : Stage} {ag : Agent}
    → Stopping cj ex cfg stage ag
    → IsAgent ag × IsOver stage ag
Stopping-IsOver (begins {ag} r) = (stop_threads-IsAgent ag (Reach-IsAgent r), tt)
Stopping-IsOver (goes_on {stage} {ag} r w) =
    let before = Stopping-IsOver r in
    (stop_stage-IsAgent stage ag w before.0, stop_stage-IsOver stage ag w before.0 before.1)
Stopping-IsOver (others {stage} r s q) =
    let before = Stopping-IsOver r in (Step-IsAgent before.0 s, Step-IsOver stage s q before.1)

-- Whatever else the other threads do: if no message of the backend is being handled behind the wait for the
-- execution threads, then leo_agent_stop frees the agent only when no detached thread is alive and
-- g_rd_thread_running is false.
pub Stopping-freed :
    {Node : Type 0} {cj : Cjson Node} {ex : Executor} {cfg : Config} {ag : Agent}
    → Stopping cj ex cfg freed ag
    → (ag.running ≡ []) × (ag.desktop.thread_running ≡ false)
Stopping-freed r = (Stopping-IsOver r).1
