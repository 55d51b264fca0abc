-- ===== src/LinuxInput.antt =====
-- agent/platform/linux/input_linux.c: what a client's input does to the X11 display.
pub mod Keys
pub mod Screen
mod Tests
use leo_one.Prelude.{
  ltb, ◌==◌, if◌then◌else◌, ℕ, zero, suc, ◌-◌, ◌*◌, ◌/◌, min, Bytes, Bool, true, false, ◌||◌,
  Option, none, some, List, [], ◌∷◌,
}
use leo_one.Prelude.Int.{ℤ, pos, negsuc}
use leo_one.Desktop.Stream.{Input, input_move, input_button, input_scroll, input_key}
use leo_one.LinuxInput.Keys.{keysym_for}

-- The calls of XTest: the place of the pointer, a button, a key by its code.
pub data Event : Type 0 where
  motion : ℕ → ℕ → Event
  button_event : ℕ → Bool → Event
  key_event : ℕ → Bool → Event

-- `leo_rd_input`, with XKeysymToKeycode, which gives 0 for a keysym without a key. A screen of X11 is at
-- least one pixel wide and high.
pub record Display : Type 0 where
  pub screen_w : ℕ
  pub screen_h : ℕ
  pub keycode : Bytes → ℕ

pub input_move_events : Display → ℕ → ℕ → List Event
input_move_events d x y = motion (x * (d.screen_w - 1) / 65535) (y * (d.screen_h - 1) / 65535) ∷ []

pub input_button_events : ℕ → Bool → List Event
input_button_events button down =
    if ltb button 1 || ltb 3 button then [] else button_event button down ∷ []

pub clicks : ℕ → ℕ → List Event
clicks zero btn = []
clicks (suc n) btn = button_event btn true ∷ button_event btn false ∷ clicks n btn

-- `leo_rd_input_scroll`
pub input_scroll_events : ℤ → List Event
unfolding clicks
input_scroll_events (pos zero) = []
input_scroll_events (pos (suc n)) = clicks (min (suc n) 10) 4
input_scroll_events (negsuc n) = clicks (min (suc n) 10) 5

pub code_events : ℕ → Bool → List Event
code_events kc down = if kc == 0 then [] else key_event kc down ∷ []

pub keysym_events : Display → Option Bytes → Bool → List Event
unfolding code_events
keysym_events d none down = []
keysym_events d (some ks) down = code_events (d.keycode ks) down

-- `leo_rd_input_move`, `leo_rd_input_button`, `leo_rd_input_scroll` and `leo_rd_input_key`
pub events_of : Display → Input → List Event
unfolding input_move_events input_button_events input_scroll_events keysym_events
events_of d (input_move x y) = input_move_events d x y
events_of d (input_button button down) = input_button_events button down
events_of d (input_scroll delta) = input_scroll_events delta
events_of d (input_key key down) = keysym_events d (keysym_for key) down
