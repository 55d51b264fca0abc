-- ===== src/Desktop/Stream.antt =====
-- agent/src/remote_desktop.c: the dedicated connection of a session, with its frames and its input.
pub mod View
pub mod Decode
pub mod Frames
pub mod Thread
mod Tests
use leo_one.Prelude.{
  ltb, leb, ◌==◌, if◌then◌else◌, take, Bytes, bytes, str_eq, ℕ, suc, ◌+◌, ◌-◌, ◌*◌, ◌/◌, ◌%◌, ◌^◌,
  Bool, true, false, not, ◌&&◌, Option, none, some, List, [], ◌∷◌, ◌++◌,
}
use leo_one.Prelude.Int.{ℤ, pos, negsuc}
use leo_one.Protocol.Tree.{Cjson}

-- What is handed to the platform's input: leo_rd_input_move, _button, _scroll and _key.
pub data Input : Type 0 where
  input_move : (x : ℕ) → (y : ℕ) → Input
  input_button : (button : ℕ) → (down : Bool) → Input
  input_scroll : (delta : ℤ) → Input
  input_key : (key : ℕ) → (down : Bool) → Input

-- The part of `_rd_session_ctx_t` that the session thread uses, with what it gave away: the input in
-- order, the payloads that lws_write was
-- handed, each with whether it took it, the interval that the frame timer was armed with, and how often a
-- writeable callback was asked for.
pub record Stream : Type 0 where
  pub control_mode : Bool
  pub fps : ℕ
  pub has_cap : Bool
  pub has_input : Bool
  pub frame_seq : ℕ
  pub capture_failures : ℕ
  pub established : Bool
  pub done : Bool
  pub fail_reason : Bytes
  pub inputs : List Input
  pub wire : List (Bytes × Bool)
  pub timer_us : Option ℕ
  pub asked : ℕ

-- `(int16_t)` of 16 bits
abbrev pub of_bits16 : ℕ → ℤ
of_bits16 b = if ltb b (2 ^ 15) then pos b else negsuc (2 ^ 16 - 1 - b)

-- `_RD_WIRE_*`
abbrev pub wire_frame : ℕ
wire_frame = 0x01

abbrev pub wire_control : ℕ
wire_control = 0x20

decode_move : Bytes → Option Input
decode_move (a ∷ b ∷ c ∷ d ∷ rest) = some (input_move (a * 256 + b) (c * 256 + d))
decode_move _ = none

decode_button : Bytes → Option Input
decode_button (button ∷ down ∷ rest) = some (input_button button (not (down == 0)))
decode_button _ = none

decode_scroll : Bytes → Option Input
decode_scroll (a ∷ b ∷ rest) = some (input_scroll (of_bits16 (a * 256 + b)))
decode_scroll _ = none

decode_key : Bytes → Option Input
decode_key (key ∷ down ∷ rest) = some (input_key key (not (down == 0)))
decode_key _ = none

-- The switch of `_handle_input_message`, on the first byte and the rest.
unfoldable pub decode_input : ℕ → Bytes → Option Input
unfolding decode_move decode_button decode_scroll decode_key
decode_input kind rest =
    if kind == 0x10
    then decode_move rest
    else if kind == 0x11
    then decode_button rest
    else if kind == 0x12
    then decode_scroll rest
    else if kind == 0x13
    then decode_key rest
    else none

inject : Stream → Option Input → Stream
inject s none = s
inject s (some i) = record s { inputs = s.inputs ++ (i ∷ []) }

-- `_handle_input_message`
pub handle_input : Stream → ℕ → Bytes → Stream
unfolding inject decode_input
handle_input s kind rest =
    if s.control_mode && s.has_input then inject s (decode_input kind rest) else s

-- `snprintf` into `fail_reason`
abbrev pub reason : Bytes → Bytes
reason text = take 127 text

-- `_arm_frame_timer`
pub arm_frame_timer : Stream → Stream
arm_frame_timer s = record s { timer_us = some (1000000 / (if ltb 0 s.fps then s.fps else 1)) }

-- The payload of a frame: type, width, height, number, and the picture.
pub frame_bytes : ℕ → ℕ → ℕ → Bytes → Bytes
frame_bytes width height seq jpeg =
    wire_frame
    ∷ width / 2 ^ 8 % 2 ^ 8
    ∷ width % 2 ^ 8
    ∷ height / 2 ^ 8 % 2 ^ 8
    ∷ height % 2 ^ 8
    ∷ seq / 2 ^ 24 % 2 ^ 8
    ∷ seq / 2 ^ 16 % 2 ^ 8
    ∷ seq / 2 ^ 8 % 2 ^ 8
    ∷ seq % 2 ^ 8
    ∷ jpeg

-- What a capture gives: nothing, or a picture with its size, if it could be compressed, whether there
-- is memory for the payload, and whether lws_write takes it.
pub data Grab : Type 0 where
  grab_failed : Grab
  grabbed :
      (width : ℕ) → (height : ℕ) → (jpeg : Option Bytes) → (alloc : Bool) → (written : Bool) → Grab

capture_failed : Stream → Stream
capture_failed s =
    let n = suc s.capture_failures in
    if leb 20 n
    then record s {
      capture_failures = n;
      fail_reason = reason (bytes "Échecs de capture d'écran répétés");
      done = true;
    }
    else record s { capture_failures = n }

write_frame : Stream → ℕ → ℕ → Option Bytes → Bool → Bool → Stream
unfolding frame_bytes
write_frame s width height none alloc written = s
write_frame s width height (some jpeg) alloc written =
    if alloc
    then record s {
      frame_seq = (s.frame_seq + 1) % 2 ^ 32;
      wire = s.wire ++ ((frame_bytes width height s.frame_seq jpeg, written) ∷ []);
    }
    else s

-- `_send_frame`
pub send_frame : Stream → Grab → Stream
unfolding capture_failed write_frame
send_frame s grab_failed = capture_failed s
send_frame s (grabbed width height jpeg alloc written) =
    write_frame (record s { capture_failures = 0 }) width height jpeg alloc written

-- The callbacks of `_rd_lws_callback` but for the check of the certificate, which is that of
-- connection.c, with what the platform answers in them.
pub data Event : Type 0 where
  connection_error : (text : Option Bytes) → Event
  client_established : (cap_opens : Bool) → (input_opens : Bool) → Event
  client_receive : Bytes → Event
  timer : Event
  client_writeable : Grab → Event
  client_closed : Event

text_or_unknown : Option Bytes → Bytes
text_or_unknown none = bytes "(inconnue)"
text_or_unknown (some t) = t

failed_with : Bytes → Stream → Stream
failed_with text s = record s { fail_reason = reason text; done = true }

stream_up : Stream → Stream
unfolding arm_frame_timer
stream_up s = arm_frame_timer (record s { established = true })

-- LWS_CALLBACK_CLIENT_ESTABLISHED
on_established : Stream → Bool → Bool → Stream
unfolding stream_up failed_with
on_established s cap_opens input_opens =
    if not cap_opens
    then failed_with (bytes "Capture d'écran indisponible") (record s { has_cap = false })
    else if not s.control_mode
    then stream_up (record s { has_cap = true })
    else if input_opens
    then stream_up (record s { has_cap = true; has_input = true })
    else failed_with (bytes "Injection d'input indisponible")
        (record s { has_cap = true; has_input = false })

module _ {Node : Type 0} (cj : Cjson Node) (parse_with_length : Bytes → Option Node) where
  is_stop_text : Option Bytes → Bool
  is_stop_text none = false
  is_stop_text (some t) = str_eq t (bytes "stop")

  type_of : Option Node → Option Bytes
  type_of none = none
  type_of (some j) = cj.string j

  -- A control message says `stop`.
  is_stop : Option Node → Bool
  unfolding is_stop_text type_of
  is_stop none = false
  is_stop (some root) = is_stop_text (type_of (cj.get_item root (bytes "type")))

  -- `_handle_control_message`, on what follows the type
  handle_control : Stream → Bytes → Stream
  unfolding is_stop
  handle_control s [] = s
  handle_control s (c ∷ text) =
      if is_stop (parse_with_length (c ∷ text)) then record s { done = true } else s

  -- LWS_CALLBACK_CLIENT_RECEIVE
  on_receive : Stream → Bytes → Stream
  unfolding handle_control handle_input
  on_receive s [] = s
  on_receive s (kind ∷ rest) =
      if not s.established
      then s
      else if kind == wire_control
      then handle_control s rest
      else handle_input s kind rest

  is_live : Stream → Bool
  is_live s = s.established && not s.done

  -- `_rd_lws_callback`
  pub on_event : Stream → Event → Stream
  unfolding on_receive on_established text_or_unknown failed_with send_frame is_live arm_frame_timer
  on_event s (connection_error text) =
      failed_with (bytes "Connexion dédiée échouée : " ++ text_or_unknown text) s
  on_event s (client_established cap_opens input_opens) = on_established s cap_opens input_opens
  on_event s (client_receive data_in) = on_receive s data_in
  on_event s timer = if is_live s then arm_frame_timer (record s { asked = suc s.asked }) else s
  on_event s (client_writeable grab) = if is_live s then send_frame s grab else s
  on_event s client_closed = record s { done = true }

  pub on_events : Stream → List Event → Stream
  unfolding on_event
  on_events s [] = s
  on_events s (e ∷ events) = on_events (on_event s e) events
