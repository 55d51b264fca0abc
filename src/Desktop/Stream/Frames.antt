-- ===== src/Desktop/Stream/Frames.antt =====
-- agent/src/remote_desktop.c: the frames that a session sends, as their receiver reads them.
use leo_one.Prelude.{
  leb, ◌==◌, if◌then◌else◌, if_both, length, length-append, Bytes, bytes, ℕ, suc, ◌+◌, ◌*◌, ◌/◌,
  ◌%◌, ◌^◌, ◌<◌, ◌≡◌, ap, ◌∙◌, Bool, true, false, not, ◌&&◌, Option, none, some, List, [], ◌∷◌,
  ◌++◌, arith,
}
use leo_one.Protocol.Tree.{Cjson}
use leo_one.Desktop.Stream.{
  Input, Stream, wire_control, decode_input, inject, handle_input, reason, arm_frame_timer,
  frame_bytes, Grab, grab_failed, grabbed, capture_failed, write_frame, send_frame, Event,
  connection_error, client_established, client_receive, timer, client_writeable, client_closed,
  failed_with, stream_up, on_established, is_stop, handle_control, on_receive, is_live, on_event,
  on_events,
}

-- The header as agent/src/remote_desktop.h describes it: the width, the height, the number and the
-- picture of a payload that says it is a frame.
abbrev pub decode_frame : Bytes → Option (ℕ × ℕ × ℕ × Bytes)
decode_frame (kind ∷ w1 ∷ w0 ∷ h1 ∷ h0 ∷ s3 ∷ s2 ∷ s1 ∷ s0 ∷ jpeg) =
    if kind == 0x01
    then some (w1 * 256 + w0, h1 * 256 + h0, s3 * 2 ^ 24 + s2 * 2 ^ 16 + s1 * 2 ^ 8 + s0, jpeg)
    else none
decode_frame _ = none

split32 :
    (n : ℕ)
    → n < 2 ^ 32
    → n / 2 ^ 24 % 2 ^ 8 * 2 ^ 24
        + n / 2 ^ 16 % 2 ^ 8 * 2 ^ 16
        + n / 2 ^ 8 % 2 ^ 8 * 2 ^ 8
        + n % 2 ^ 8
      ≡ n
split32 n h = omega arith

abbrev number_of : Option (ℕ × ℕ × ℕ × Bytes) → Option ℕ
number_of none = none
number_of (some (width, height, seq, jpeg)) = some seq

-- The payloads that lws_write was handed, taken or not, are frames, numbered from `n` on, modulo 2^32.
abbrev pub IsNumbered : ℕ → List (Bytes × Bool) → Type 0
IsNumbered n [] = Unit
IsNumbered n ((p, taken) ∷ wire) =
    (number_of (decode_frame p) ≡ some n) × IsNumbered ((n + 1) % 2 ^ 32) wire

frame_bytes-number :
    (width height seq : ℕ) (jpeg : Bytes)
    → seq < 2 ^ 32
    → number_of (decode_frame (frame_bytes width height seq jpeg)) ≡ some seq
unfolding frame_bytes
frame_bytes-number width height seq jpeg s = ap some (split32 seq s)

IsNumbered-append :
    (n : ℕ) (wire : List (Bytes × Bool)) (p : Bytes) (taken : Bool)
    → n < 2 ^ 32
    → IsNumbered n wire
    → number_of (decode_frame p) ≡ some ((n + length wire) % 2 ^ 32)
    → IsNumbered n (wire ++ ((p, taken) ∷ []))
IsNumbered-append n [] p taken b h k =
    let e : (n + 0) % 2 ^ 32 ≡ n = omega arith in (k ∙ ap some e, tt)
IsNumbered-append n ((q, sent) ∷ wire) p taken b h k =
    let e : (n + suc (length wire)) % 2 ^ 32 ≡ ((n + 1) % 2 ^ 32 + length wire) % 2 ^ 32 =
      omega arith in
    (h.0, IsNumbered-append ((n + 1) % 2 ^ 32) wire p taken (omega arith) h.1 (k ∙ ap some e))

-- What lws_write was handed is numbered from 0 on, and `frame_seq` is the next number.
abbrev pub IsSequence : Stream → Type 0
IsSequence s = IsNumbered 0 s.wire × (s.frame_seq ≡ length s.wire % 2 ^ 32)

write_frame-IsSequence :
    (s : Stream) (width height : ℕ) (jpeg : Option Bytes) (alloc written : Bool)
    → IsSequence s
    → IsSequence (write_frame s width height jpeg alloc written)
unfolding write_frame
write_frame-IsSequence s width height none alloc written h = h
write_frame-IsSequence s width height (some jpeg) false written h = h
write_frame-IsSequence s width height (some jpeg) true written h =
    let p = frame_bytes width height s.frame_seq jpeg in
    let e : s.frame_seq ≡ (0 + length s.wire) % 2 ^ 32 = omega (arith, h.1) in
    (
      IsNumbered-append 0 s.wire p written (omega arith) h.0
          (frame_bytes-number width height s.frame_seq jpeg (omega (arith, h.1)) ∙ ap some e),
      omega (arith, h.1, length-append s.wire ((p, written) ∷ [])),
    )

send_frame-IsSequence : (s : Stream) (g : Grab) → IsSequence s → IsSequence (send_frame s g)
unfolding send_frame capture_failed
send_frame-IsSequence s grab_failed h =
    let n = suc s.capture_failures in
    if_both IsSequence (leb 20 n)
      (record s {
        capture_failures = n;
        fail_reason = reason (bytes "Échecs de capture d'écran répétés");
        done = true;
      })
      (record s { capture_failures = n }) h h
send_frame-IsSequence s (grabbed width height jpeg alloc written) h =
    write_frame-IsSequence (record s { capture_failures = 0 }) width height jpeg alloc written h

inject-IsSequence : (s : Stream) (i : Option Input) → IsSequence s → IsSequence (inject s i)
unfolding inject
inject-IsSequence s none h = h
inject-IsSequence s (some i) h = h

handle_input-IsSequence :
    (s : Stream) (kind : ℕ) (rest : Bytes) → IsSequence s → IsSequence (handle_input s kind rest)
unfolding handle_input
handle_input-IsSequence s kind rest h =
    if_both IsSequence (s.control_mode && s.has_input) (inject s (decode_input kind rest)) s
      (inject-IsSequence s (decode_input kind rest) h) h

on_established-IsSequence :
    (s : Stream) (cap_opens input_opens : Bool)
    → IsSequence s
    → IsSequence (on_established s cap_opens input_opens)
unfolding on_established stream_up failed_with arm_frame_timer
on_established-IsSequence s false input_opens h = h
on_established-IsSequence s true input_opens h =
    if_both IsSequence (not s.control_mode) _ _ h (if_both IsSequence input_opens _ _ h h)

module _ {Node : Type 0} (cj : Cjson Node) (parse_with_length : Bytes → Option Node) where
  on_receive-IsSequence :
      (s : Stream) (data_in : Bytes)
      → IsSequence s
      → IsSequence (on_receive cj parse_with_length s data_in)
  unfolding on_receive handle_control
  on_receive-IsSequence s [] h = h
  on_receive-IsSequence s (kind ∷ []) h = if_both IsSequence (not s.established) s _ h (
      if_both IsSequence (kind == wire_control) s (handle_input s kind []) h
        (handle_input-IsSequence s kind [] h))
  on_receive-IsSequence s (kind ∷ c ∷ rest) h = if_both IsSequence (not s.established) s _ h (
      if_both IsSequence (kind == wire_control) _ (handle_input s kind (c ∷ rest))
        (if_both IsSequence (is_stop cj parse_with_length (parse_with_length (c ∷ rest)))
          (record s { done = true }) s h h)
        (handle_input-IsSequence s kind (c ∷ rest) h))

  on_event-IsSequence :
      (s : Stream) (e : Event) → IsSequence s → IsSequence (on_event cj parse_with_length s e)
  unfolding on_event failed_with arm_frame_timer
  on_event-IsSequence s (connection_error text) h = h
  on_event-IsSequence s (client_established cap_opens input_opens) h =
      on_established-IsSequence s cap_opens input_opens h
  on_event-IsSequence s (client_receive data_in) h = on_receive-IsSequence s data_in h
  on_event-IsSequence s timer h = if_both IsSequence (is_live cj parse_with_length s) _ s h h
  on_event-IsSequence s (client_writeable grab) h =
      if_both IsSequence (is_live cj parse_with_length s) (send_frame s grab) s
        (send_frame-IsSequence s grab h) h
  on_event-IsSequence s client_closed h = h

  -- Whatever the connection delivers, the payloads that lws_write is handed, whether it takes them or
  -- not, are frames that are numbered 0, 1, 2 and so on modulo 2^32, if they were so before; so a receiver
  -- misses the numbers of those that were not taken, and no others.
  pub on_events-IsSequence :
      (s : Stream) (events : List Event)
      → IsSequence s
      → IsSequence (on_events cj parse_with_length s events)
  unfolding on_events
  on_events-IsSequence s [] h = h
  on_events-IsSequence s (e ∷ events) h =
      on_events-IsSequence (on_event cj parse_with_length s e) events (on_event-IsSequence s e h)
