-- ===== src/Desktop/Stream/Tests.antt =====
-- agent/src/remote_desktop.c: a session that shows one picture.
use leo_one.Prelude.{refl, true, false, none, some, List, [], ◌∷◌, arith}
use leo_one.Protocol.Fixtures.{toy}
use leo_one.Desktop.Stream.{
  Stream, grabbed, Event, client_established, client_receive, timer, client_writeable, on_events,
}
use leo_one.Desktop.Stream.View.{IsViewed, on_events-IsViewed}
use leo_one.Desktop.Stream.Frames.{IsSequence, on_events-IsSequence}
use leo_one.Desktop.Stream.Thread.{Link}

abbrev opened : Stream
opened = record {
  control_mode = false;
  fps = 8;
  has_cap = false;
  has_input = false;
  frame_seq = 0;
  capture_failures = 0;
  established = false;
  done = false;
  fail_reason = [];
  inputs = [];
  wire = [];
  timer_us = none;
  asked = 0;
}

-- A click and a picture.
abbrev callbacks : List Event
callbacks =
    client_established true true
    ∷ client_receive (0x11 ∷ 1 ∷ 1 ∷ [])
    ∷ timer
    ∷ client_writeable (grabbed 2 1 (some (7 ∷ [])) true true)
    ∷ []

on_events-IsViewed_example : IsViewed (on_events toy (λ s. none) opened callbacks)
on_events-IsViewed_example = on_events-IsViewed toy (λ s. none) opened callbacks (refl, refl)

on_events-IsSequence_example : IsSequence (on_events toy (λ s. none) opened callbacks)
on_events-IsSequence_example =
    on_events-IsSequence toy (λ s. none) opened callbacks (tt, omega arith)

abbrev link : Link
link = record {
  has_encoder = true;
  has_context = true;
  on_connect = [];
  connects = true;
  start_sec = 100;
  rounds = record { stop_seen = false; events = callbacks; broken = false; now_sec = 20000 } ∷ [];
}
