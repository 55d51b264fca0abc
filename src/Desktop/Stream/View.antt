-- ===== src/Desktop/Stream/View.antt =====
-- agent/src/remote_desktop.c: a session that is only viewed injects nothing.
use mathlib.Core.Path.{subst}
use leo_one.Prelude.{
  leb, ◌==◌, if◌then◌else◌, if_both, Bytes, bytes, ℕ, suc, ◌≡◌, sym, ap, Bool, true, false, not,
  ◌&&◌, Option, none, some, List, [], ◌∷◌, arith,
}
use leo_one.Protocol.Tree.{Cjson}
use leo_one.Desktop.Stream.{
  Stream, wire_control, decode_input, inject, handle_input, reason, arm_frame_timer, Grab,
  grab_failed, grabbed, capture_failed, write_frame, send_frame, Event, connection_error,
  client_established, client_receive, timer, client_writeable, client_closed, failed_with,
  stream_up, on_established, is_stop, handle_control, on_receive, is_live, on_event, on_events,
}

-- The session is a viewing one and has injected nothing.
abbrev pub IsViewed : Stream → Type 0
IsViewed s = (s.control_mode ≡ false) × (s.inputs ≡ [])

handle_input-IsViewed :
    (s : Stream) (kind : ℕ) (rest : Bytes) → IsViewed s → IsViewed (handle_input s kind rest)
unfolding handle_input
handle_input-IsViewed s kind rest h =
    let viewing : (s.control_mode && s.has_input) ≡ false = ground (arith, h.0) in
    subst IsViewed (sym (ap (λ b. if b then inject s (decode_input kind rest) else s) viewing)) h

write_frame-IsViewed :
    (s : Stream) (width height : ℕ) (jpeg : Option Bytes) (alloc written : Bool)
    → IsViewed s
    → IsViewed (write_frame s width height jpeg alloc written)
unfolding write_frame
write_frame-IsViewed s width height none alloc written h = h
write_frame-IsViewed s width height (some jpeg) true written h = h
write_frame-IsViewed s width height (some jpeg) false written h = h

send_frame-IsViewed : (s : Stream) (g : Grab) → IsViewed s → IsViewed (send_frame s g)
unfolding send_frame capture_failed
send_frame-IsViewed s grab_failed h =
    let n = suc s.capture_failures in
    if_both IsViewed (leb 20 n)
      (record s {
        capture_failures = n;
        fail_reason = reason (bytes "Échecs de capture d'écran répétés");
        done = true;
      })
      (record s { capture_failures = n }) h h
send_frame-IsViewed s (grabbed width height jpeg alloc written) h =
    write_frame-IsViewed (record s { capture_failures = 0 }) width height jpeg alloc written h

on_established-IsViewed :
    (s : Stream) (cap_opens input_opens : Bool)
    → IsViewed s
    → IsViewed (on_established s cap_opens input_opens)
unfolding on_established stream_up failed_with arm_frame_timer
on_established-IsViewed s false input_opens h = h
on_established-IsViewed s true input_opens h =
    if_both IsViewed (not s.control_mode) _ _ h (if_both IsViewed input_opens _ _ h h)

module _ {Node : Type 0} (cj : Cjson Node) (parse_with_length : Bytes → Option Node) where
  handle_control-IsViewed :
      (s : Stream) (text : Bytes)
      → IsViewed s
      → IsViewed (handle_control cj parse_with_length s text)
  unfolding handle_control
  handle_control-IsViewed s [] h = h
  handle_control-IsViewed s (c ∷ text) h =
      if_both IsViewed (is_stop cj parse_with_length (parse_with_length (c ∷ text)))
        (record s { done = true }) s h h

  on_receive-IsViewed :
      (s : Stream) (data_in : Bytes)
      → IsViewed s
      → IsViewed (on_receive cj parse_with_length s data_in)
  unfolding on_receive
  on_receive-IsViewed s [] h = h
  on_receive-IsViewed s (kind ∷ rest) h = if_both IsViewed (not s.established) s _ h (
      if_both IsViewed (kind == wire_control) (handle_control cj parse_with_length s rest)
        (handle_input s kind rest) (handle_control-IsViewed s rest h)
        (handle_input-IsViewed s kind rest h))

  on_event-IsViewed :
      (s : Stream) (e : Event) → IsViewed s → IsViewed (on_event cj parse_with_length s e)
  unfolding on_event failed_with arm_frame_timer
  on_event-IsViewed s (connection_error text) h = h
  on_event-IsViewed s (client_established cap_opens input_opens) h =
      on_established-IsViewed s cap_opens input_opens h
  on_event-IsViewed s (client_receive data_in) h = on_receive-IsViewed s data_in h
  on_event-IsViewed s timer h = if_both IsViewed (is_live cj parse_with_length s) _ s h h
  on_event-IsViewed s (client_writeable grab) h =
      if_both IsViewed (is_live cj parse_with_length s) (send_frame s grab) s
        (send_frame-IsViewed s grab h) h
  on_event-IsViewed s client_closed h = h

  -- Whatever the connection delivers to a session that is only viewed and has injected nothing,
  -- nothing is handed to the platform's input.
  pub on_events-IsViewed :
      (s : Stream) (events : List Event)
      → IsViewed s
      → IsViewed (on_events cj parse_with_length s events)
  unfolding on_events
  on_events-IsViewed s [] h = h
  on_events-IsViewed s (e ∷ events) h =
      on_events-IsViewed (on_event cj parse_with_length s e) events (on_event-IsViewed s e h)
