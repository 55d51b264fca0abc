-- ===== src/Desktop/Stream/Thread.antt =====
-- agent/src/remote_desktop.c: `_rd_session_thread` up to its report, and that it ends.
use leo_one.Prelude.{
  ltb, ◌==◌, if◌then◌else◌, length, Bytes, bytes, ℕ, ◌+◌, ◌<◌, ◌≡◌, refl, ap, ◌⊎◌, inl, inr, Bool,
  true, false, not, ◌||◌, Option, none, some, List, [], ◌∷◌, ◌++◌, arith,
}
use leo_one.Prelude.Decimal.{decimal}
use leo_one.Protocol.Tree.{Cjson}
use leo_one.Desktop.Stream.{Stream, reason, Event, on_events}

abbrev pub rd_max_session_sec : ℕ
rd_max_session_sec = 14400

-- A turn of the loop: whether a stop has been asked for, the callbacks of lws_service, whether it
-- failed, and the clock behind it.
pub record Round : Type 0 where
  pub stop_seen : Bool
  pub events : List Event
  pub broken : Bool
  pub now_sec : ℕ

-- What the thread finds: the encoder, the context and the connection, the callbacks that run while it
-- is set up, the clock, and the turns.
pub record Link : Type 0 where
  pub has_encoder : Bool
  pub has_context : Bool
  pub on_connect : List Event
  pub connects : Bool
  pub start_sec : ℕ
  pub rounds : List Round

-- The report, and the session as it was left.
pub record Closed : Type 0 where
  pub status : Bytes
  pub error_text : Option Bytes
  pub stream : Stream

abbrev pub time_over : Bytes
time_over =
    bytes "Durée maximale de session atteinte (" ++ (decimal rd_max_session_sec ++ bytes "s)")

check_time : ℕ → ℕ → Stream → Stream
check_time deadline now s =
    if ltb deadline now then record s { fail_reason = reason time_over; done = true } else s

-- Behind lws_service.
serviced : ℕ → Round → (Stream → Option Stream) → Stream → Option Stream
unfolding check_time
serviced deadline r again s = if r.broken then some s else again (check_time deadline r.now_sec s)

-- The report by `fail_reason`.
report : Stream → Closed
report s =
    if length s.fail_reason == 0
    then record { status = bytes "ended"; error_text = none; stream = s }
    else record { status = bytes "failed"; error_text = some s.fail_reason; stream = s }

report_if : Option Stream → Option Closed
unfolding report
report_if none = none
report_if (some s) = some (report s)

aborted : Bytes → Stream → Closed
aborted text s = record { status = bytes "failed"; error_text = some text; stream = s }

module _ {Node : Type 0} (cj : Cjson Node) (parse_with_length : Bytes → Option Node) where
  -- The loop `while (!sctx->done && !sctx->should_stop)`: none when it is not over after these turns.
  thread_loop : ℕ → List Round → Stream → Option Stream
  unfolding serviced
  thread_loop deadline [] s = if s.done then some s else none
  thread_loop deadline (r ∷ rounds) s =
      if s.done || r.stop_seen
      then some s
      else serviced deadline r (λ s'. thread_loop deadline rounds s')
          (on_events cj parse_with_length s r.events)

  -- `_rd_session_thread`
  pub session_thread : Link → Stream → Option Closed
  unfolding report_if aborted thread_loop
  session_thread link s =
      if not link.has_encoder
      then some (aborted (bytes "Initialisation de l'encodeur JPEG échouée") s)
      else if not link.has_context
      then some (aborted (bytes "Contexte réseau indisponible") s)
      else if not link.connects
      then some (aborted (bytes "Connexion au serveur impossible") s)
      else report_if (
          thread_loop (link.start_sec + rd_max_session_sec) link.rounds
            (on_events cj parse_with_length s link.on_connect))

-- Some turn finds the clock behind the deadline.
abbrev pub IsOver : ℕ → List Round → Type 0
IsOver deadline [] = ⊥
IsOver deadline (r ∷ rounds) = (deadline < r.now_sec) ⊎ IsOver deadline rounds

abbrev Returns : {A : Type 0} → Option A → Type 0
Returns {A = A} o = (a : A) × (o ≡ some a)

if-Returns :
    {A : Type 0} (b : Bool) (a : A) (o : Option A) → Returns o → Returns (if b then some a else o)
if-Returns true a o h = (a, refl)
if-Returns false a o h = h

check_time-done :
    (deadline now : ℕ) (s : Stream) → deadline < now → (check_time deadline now s).done ≡ true
unfolding check_time
check_time-done deadline now s h = let late : ltb deadline now ≡ true = ground arith in rw late refl

module _ {Node : Type 0} (cj : Cjson Node) (parse_with_length : Bytes → Option Node) where
  done-Returns :
      (deadline : ℕ) (rounds : List Round) (s : Stream)
      → s.done ≡ true
      → Returns (thread_loop cj parse_with_length deadline rounds s)
  unfolding thread_loop
  done-Returns deadline [] s h = (s, ap (λ b. if b then some s else none) h)
  done-Returns deadline (r ∷ rounds) s h =
      let next =
        serviced deadline r (thread_loop cj parse_with_length deadline rounds)
          (on_events cj parse_with_length s r.events) in
      let over : (s.done || r.stop_seen) ≡ true = ground (arith, h) in
      (s, ap (λ b. if b then some s else next) over)

  thread_loop-IsOver :
      (deadline : ℕ) (rounds : List Round) (s : Stream)
      → IsOver deadline rounds
      → Returns (thread_loop cj parse_with_length deadline rounds s)
  unfolding thread_loop serviced
  thread_loop-IsOver deadline [] s h = absurd h
  thread_loop-IsOver deadline (r ∷ rounds) s h =
      let now = on_events cj parse_with_length s r.events in
      let again = thread_loop cj parse_with_length deadline rounds in
      let later = check_time deadline r.now_sec now in
      if-Returns (s.done || r.stop_seen) s (serviced deadline r again now) (
        if-Returns r.broken now (again later) (elim h [
          | inl late ↦
              done-Returns deadline rounds later (check_time-done deadline r.now_sec now late)
          | inr more ↦ thread_loop-IsOver deadline rounds later more
        ]))

  report_if-Returns : (o : Option Stream) → Returns o → Returns (report_if o)
  unfolding report_if
  report_if-Returns none h = absurd cc
  report_if-Returns (some s) h = (report s, refl)

  -- The thread of a session ends if a turn of its loop finds the clock more than four hours past the
  -- start, whatever the server, the capture and the input do.
  pub session_thread-IsOver :
      (link : Link) (s : Stream)
      → IsOver (link.start_sec + rd_max_session_sec) link.rounds
      → (c : Closed) × (session_thread cj parse_with_length link s ≡ some c)
  unfolding session_thread
  session_thread-IsOver link s h =
      let up = on_events cj parse_with_length s link.on_connect in
      let loop =
        thread_loop cj parse_with_length (link.start_sec + rd_max_session_sec) link.rounds up in
      if-Returns (not link.has_encoder)
        (aborted (bytes "Initialisation de l'encodeur JPEG échouée") s) _
        (if-Returns (not link.has_context) (aborted (bytes "Contexte réseau indisponible") s) _ (
          if-Returns (not link.connects) (aborted (bytes "Connexion au serveur impossible") s)
            (report_if loop)
            (report_if-Returns loop
              (thread_loop-IsOver (link.start_sec + rd_max_session_sec) link.rounds up h))))
