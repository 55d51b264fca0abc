-- ===== src/LinuxInput/Tests.antt =====
-- agent/platform/linux/input_linux.c on concrete input.
use leo_one.Prelude.{length, All, Bytes, ◌≤◌, ◌≡◌, refl, some, [], ◌∷◌, arith}
use leo_one.Desktop.Stream.{input_move, decode_input}
use leo_one.LinuxInput.{motion, Display, input_move_events, events_of}
use leo_one.LinuxInput.Screen.{IsSafe, decode_input-IsSafe}

abbrev display : Display
display = record { screen_w = 1920; screen_h = 1080; keycode = λ ks. length ks }

abbrev corner : Bytes
corner = 0xff ∷ 0xff ∷ 0x80 ∷ 0x00 ∷ []

moved : events_of display (input_move 65535 32768) ≡ motion 1919 539 ∷ []
unfolding events_of input_move_events
moved = refl

read : decode_input 0x10 corner ≡ some (input_move 65535 32768)
unfolding decode_input
read = refl

decode_input-IsSafe_example :
    All (IsSafe display) (events_of display (input_move 65535 32768))
    × (length (events_of display (input_move 65535 32768)) ≤ 20)
decode_input-IsSafe_example =
    decode_input-IsSafe display 0x10 corner (input_move 65535 32768)
      (omega arith, (omega arith, (omega arith, (omega arith, tt)))) (omega arith) (omega arith)
      read
