-- ===== src/LinuxInput/Screen.antt =====
-- agent/platform/linux/input_linux.c with agent/src/remote_desktop.c: what a message of a client may do.
use mathlib.Core.Path.{subst}
use leo_one.Prelude.{
  ltb, ◌==◌, Bool-cases, length, All, Bytes, ℕ, zero, suc, ◌-◌, ◌*◌, ◌/◌, min, ◌≤◌, ◌<◌, ◌≡◌, refl,
  ◌≢◌, inl, inr, Bool, ◌||◌, Option, none, some, arith,
}
use leo_one.Prelude.Int.{ℤ, pos, negsuc}
use leo_one.Desktop.Stream.{Input, input_move, input_button, input_scroll, input_key, decode_input}
use leo_one.Desktop.Stream.Decode.{IsNormal, NormalIf, AreBytes, decode_input-NormalIf}
use leo_one.LinuxInput.Keys.{keysym_for}
use leo_one.LinuxInput.{
  Event, motion, button_event, key_event, Display, input_move_events, input_button_events, clicks,
  input_scroll_events, code_events, keysym_events, events_of,
}

-- An event within the screen, for one of the five buttons, or for a key that the keyboard has.
abbrev pub IsSafe : Display → Event → Type 0
IsSafe d (motion x y) = (x < d.screen_w) × (y < d.screen_h)
IsSafe d (button_event button down) = (1 ≤ button) × (button ≤ 5)
IsSafe d (key_event kc down) = kc ≢ 0

scaled-lt : (x w : ℕ) → x ≤ 65535 → 0 < w → x * (w - 1) / 65535 < w
scaled-lt x w h k =
    let at_most : x * (w - 1) ≤ 65535 * (w - 1) = grind arith in omega (arith, at_most)

clicks-IsSafe : (d : Display) (n btn : ℕ) → 1 ≤ btn → btn ≤ 5 → All (IsSafe d) (clicks n btn)
unfolding clicks
clicks-IsSafe d zero btn h k = tt
clicks-IsSafe d (suc n) btn h k = ((h, k), ((h, k), clicks-IsSafe d n btn h k))

length-clicks : (n btn : ℕ) → length (clicks n btn) ≡ 2 * n
unfolding clicks
length-clicks zero btn = refl
length-clicks (suc n) btn = omega (arith, length-clicks n btn)

code_events-IsSafe : (d : Display) (kc : ℕ) (down : Bool) → All (IsSafe d) (code_events kc down)
unfolding code_events
code_events-IsSafe d kc down = elim (Bool-cases (kc == 0)) [
  | inl no_key ↦ rw no_key tt
  | inr key ↦ rw key ((λ e. absurd (ground (arith, key, e))), tt)
]

keysym_events-IsSafe :
    (d : Display) (o : Option Bytes) (down : Bool) → All (IsSafe d) (keysym_events d o down)
unfolding keysym_events
keysym_events-IsSafe d none down = tt
keysym_events-IsSafe d (some ks) down = code_events-IsSafe d (d.keycode ks) down

button_events-IsSafe :
    (d : Display) (button : ℕ) (down : Bool) → All (IsSafe d) (input_button_events button down)
unfolding input_button_events
button_events-IsSafe d button down = elim (Bool-cases (ltb button 1 || ltb 3 button)) [
  | inl other ↦ rw other tt
  | inr good ↦ rw good ((ground (arith, good), ground (arith, good)), tt)
]

scroll_events-IsSafe : (d : Display) (delta : ℤ) → All (IsSafe d) (input_scroll_events delta)
unfolding input_scroll_events
scroll_events-IsSafe d (pos zero) = tt
scroll_events-IsSafe d (pos (suc n)) =
    clicks-IsSafe d (min (suc n) 10) 4 (omega arith) (omega arith)
scroll_events-IsSafe d (negsuc n) = clicks-IsSafe d (min (suc n) 10) 5 (omega arith) (omega arith)

events_of-IsSafe :
    (d : Display) (i : Input)
    → 0 < d.screen_w
    → 0 < d.screen_h
    → IsNormal i
    → All (IsSafe d) (events_of d i)
unfolding events_of input_move_events
events_of-IsSafe d (input_move x y) w h n =
    ((scaled-lt x d.screen_w n.0 w, scaled-lt y d.screen_h n.1 h), tt)
events_of-IsSafe d (input_button button down) w h n = button_events-IsSafe d button down
events_of-IsSafe d (input_scroll delta) w h n = scroll_events-IsSafe d delta
events_of-IsSafe d (input_key key down) w h n = keysym_events-IsSafe d (keysym_for key) down

length-code_events : (kc : ℕ) (down : Bool) → length (code_events kc down) ≤ 1
unfolding code_events
length-code_events kc down = ground arith

length-keysym_events :
    (d : Display) (o : Option Bytes) (down : Bool) → length (keysym_events d o down) ≤ 1
unfolding keysym_events
length-keysym_events d none down = omega arith
length-keysym_events d (some ks) down = length-code_events (d.keycode ks) down

length-button_events : (button : ℕ) (down : Bool) → length (input_button_events button down) ≤ 1
unfolding input_button_events
length-button_events button down = ground arith

length-events_of : (d : Display) (i : Input) → length (events_of d i) ≤ 20
unfolding events_of input_move_events input_scroll_events
length-events_of d (input_move x y) = omega arith
length-events_of d (input_button button down) = omega (arith, length-button_events button down)
length-events_of d (input_scroll (pos zero)) = omega arith
length-events_of d (input_scroll (pos (suc n))) = omega (arith, length-clicks (min (suc n) 10) 4)
length-events_of d (input_scroll (negsuc n)) = omega (arith, length-clicks (min (suc n) 10) 5)
length-events_of d (input_key key down) =
    omega (arith, length-keysym_events d (keysym_for key) down)

-- Whatever bytes a message of a client holds, what is read from it becomes at most 20 events, each of
-- them within the screen, for one of five buttons, or for a key that the keyboard has.
pub decode_input-IsSafe :
    (d : Display) (kind : ℕ) (rest : Bytes) (i : Input)
    → AreBytes rest
    → 0 < d.screen_w
    → 0 < d.screen_h
    → decode_input kind rest ≡ some i
    → All (IsSafe d) (events_of d i) × (length (events_of d i) ≤ 20)
decode_input-IsSafe d kind rest i are_bytes w h read =
    let normal : IsNormal i = subst NormalIf read (decode_input-NormalIf kind rest are_bytes) in
    (events_of-IsSafe d i w h normal, length-events_of d i)
