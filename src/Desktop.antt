-- ===== src/Desktop.antt =====
-- agent/src/remote_desktop.c: the one session of remote desktop that an agent may have, its input
-- messages and its frames.
mod Tests
pub mod Single
pub mod Life
pub mod Repack
pub mod Stream
use leo_one.Prelude.{
  ltb, if◌then◌else◌, take, Bytes, bytes, str_eq, ℕ, ◌-◌, Bool, true, false, not, Option, none,
  some,
}
use leo_one.Types.{uuid_str_max}
use leo_one.Url.{Target, parse_ws_url}

-- `_rd_session_ctx_t`, as `leo_rd_start` fills it.
pub record Session : Type 0 where
  pub session_id : Bytes
  pub ws_url : Bytes
  pub control_mode : Bool
  pub fps : ℕ
  pub quality : ℕ
  pub max_width : ℕ
  pub max_height : ℕ
  pub target : Target
  pub should_stop : Bool

-- The globals `g_rd_ctx` and `g_rd_thread_running`.
pub record Desktop : Type 0 where
  pub ctx : Option Session
  pub thread_running : Bool

-- What a START message asks for, with the bounds of agent.c applied.
pub record Request : Type 0 where
  pub req_session_id : Bytes
  pub req_ws_url : Bytes
  pub req_mode : Bytes
  pub req_fps : ℕ
  pub req_quality : ℕ
  pub req_max_width : ℕ
  pub req_max_height : ℕ

abbrev pub rd_ws_url_max_len : ℕ
rd_ws_url_max_len = 1024

-- `v > 0 ? v : fallback`
abbrev or_default : ℕ → ℕ → ℕ
or_default v fallback = if ltb 0 v then v else fallback

session_of : Request → Target → Session
session_of r t = record {
  session_id = take uuid_str_max r.req_session_id;
  ws_url = take (rd_ws_url_max_len - 1) r.req_ws_url;
  control_mode = str_eq r.req_mode (bytes "control");
  fps = or_default r.req_fps 8;
  quality = or_default r.req_quality 60;
  max_width = or_default r.req_max_width 1920;
  max_height = or_default r.req_max_height 1080;
  target = t;
  should_stop = false;
}

-- The START takes two locks, one after the other: it records the session, and then it says that its
-- thread runs.
unfoldable pub claim : Desktop → Request → Target → Desktop
unfolding session_of
claim d r t = record d { ctx = some (session_of r t) }

unfoldable pub raise : Desktop → Desktop
raise d = record d { thread_running = true }

-- The end of `_rd_session_thread`, and a START whose pthread_create fails, take the two locks as well: they
-- forget the session, and then they say that the thread is over.
unfoldable pub forget : Desktop → Desktop
forget d = record d { ctx = none }

unfoldable pub signal_exit : Desktop → Desktop
signal_exit d = record d { thread_running = false }

unfoldable pub finish : Desktop → Desktop
unfolding forget signal_exit
finish d = signal_exit (forget d)

-- From the parsed URL on; the flag says whether pthread_create succeeds.
begin_session : Desktop → Request → Bool → Option Target → Desktop × Bool
unfolding claim raise finish
begin_session d r spawned none = (d, false)
begin_session d r spawned (some t) =
    if spawned then (raise (claim d r t), true) else (finish (raise (claim d r t)), false)

-- `leo_rd_start`, on pointers that are not NULL and between no locks of another thread; the flags say
-- whether calloc and pthread_create succeed.
unfoldable pub start : Desktop → Request → Bool → Bool → Desktop × Bool
unfolding begin_session
start d r alloc spawned = elim d.ctx [
  | some s ↦ (d, false)
  | none ↦
      if alloc
      then begin_session d r spawned (parse_ws_url r.req_ws_url 256 rd_ws_url_max_len)
      else (d, false)
]

-- `session_id && strcmp(...) != 0`
other_session : Session → Option Bytes → Bool
other_session s none = false
other_session s (some id) = not (str_eq s.session_id id)

-- `g_rd_ctx->should_stop = true`
unfoldable pub ask_stop : Desktop → Desktop
ask_stop d = elim d.ctx [
  | none ↦ d
  | some s ↦ record d { ctx = some (record s { should_stop = true }) }
]

-- `_rd_wait_thread_exit`: the flag says whether the session thread ends before the deadline.
unfoldable pub wait_thread_exit : Desktop → Bool → Desktop × Bool
unfolding finish
wait_thread_exit d exits =
    if d.thread_running then if exits then (finish d, true) else (d, false) else (d, true)

-- `leo_rd_stop`: the flag says whether the session thread ends within the wait of two seconds.
pub stop : Desktop → Option Bytes → Bool → Desktop
unfolding other_session ask_stop wait_thread_exit
stop d id exits = elim d.ctx [
  | none ↦ d
  | some s ↦ if other_session s id then d else (wait_thread_exit (ask_stop d) exits).0
]

-- `leo_rd_stop_all`: the flag says whether the session thread ends within the wait of five seconds.
unfoldable pub stop_all : Desktop → Bool → Desktop × Bool
unfolding ask_stop wait_thread_exit
stop_all d exits = wait_thread_exit (ask_stop d) exits
