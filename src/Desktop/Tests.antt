-- ===== src/Desktop/Tests.antt =====
-- A START on an agent that has no session.
use leo_one.Prelude.{
  All, bytes, starts_with, find_index, str_eq, none, ◌⊎◌, ◌≡◌, refl, true, false, none, arith,
}
use leo_one.Prelude.Int.{pos}
use leo_one.Prelude.Decimal.{atoi}
use leo_one.Url.{Target, parse_ws_url, parse_target, parse_authority, strip_ws}
use leo_one.Desktop.Single.{is_some, IsDesktop, start_once}
use leo_one.Desktop.{Desktop, Request, start, claim, raise, forget, signal_exit, ask_stop, stop_all}
use leo_one.Desktop.Life.{
  Life, free, claimed, next, boot, claims, raises, spawns, asks, forgets, signals, Reach-joined,
}
use leo_one.Desktop.Repack.{repack_scale, IsWithin, repack_scale-IsWithin}

abbrev idle : Desktop
idle = record { ctx = none; thread_running = false }

abbrev ask : Request
ask = record {
  req_session_id = bytes "s-1";
  req_ws_url = bytes "wss://relay:8443/ws?t=1";
  req_mode = bytes "view";
  req_fps = 8;
  req_quality = 60;
  req_max_width = 1920;
  req_max_height = 1080;
}

start_once_example :
    IsDesktop (start idle ask true true).0
    × ((start idle ask true true).1 ≡ false → (start idle ask true true).0 ≡ idle)
    × ((start idle ask true true).1 ≡ true
        → (idle.ctx ≡ none) × (is_some (start idle ask true true).0.ctx ≡ true))
start_once_example = start_once idle ask true true (record { agree = refl })

repack_scale-IsWithin_example : All (IsWithin 2 1 4 2 20) (repack_scale 2 1 4 2 20)
repack_scale-IsWithin_example =
    repack_scale-IsWithin 2 1 4 2 20 (omega arith) (omega arith) (omega arith)

abbrev first_session : Desktop
first_session = (start idle ask true true).0

-- A START that is handled between the two locks with which a session's thread ends leaves a session whose
-- thread no wait will find.
unjoined : (stop_all (signal_exit (start (forget first_session) ask true true).0) false).1 ≡ true
unfolding stop_all start claim raise signal_exit forget parse_ws_url parse_target parse_authority
    strip_ws starts_with find_index atoi str_eq
unjoined = refl

abbrev parsed : Target
parsed = record { use_ssl = true; host = bytes "relay"; port = pos 8443; path = bytes "/ws?t=1" }

abbrev claimed_first : Desktop
claimed_first = claim idle ask parsed

abbrev asked : Desktop
asked = ask_stop (raise claimed_first)

abbrev over : Life
over = record { globals = signal_exit (forget asked); phase = free; alive = 0; ending = 0 }

not_running : (signal_exit (forget asked)).thread_running ≡ false
unfolding signal_exit
not_running = refl

Reach-joined_example :
    (over.alive ≡ 0) × (over.ending ≡ 0) × ((over.globals.ctx ≡ none) ⊎ (over.phase ≡ claimed))
Reach-joined_example =
    Reach-joined {l = over}
      (next
        (next
          (next
            (next (next (next boot (claims ask parsed refl refl refl)) (raises refl)) (spawns refl))
            asks)
          (forgets 0 refl))
        (signals 0 refl))
      not_running
