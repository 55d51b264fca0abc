-- ===== src/Desktop/Single.antt =====
-- At most one session: a START while one runs changes nothing, nor does a STOP for another session.
use leo_one.Prelude.{
  if◌then◌else◌, ◌≡◌, refl, sym, ap, ◌∙◌, Bool, true, false, Option, none, some, arith,
}
use leo_one.Url.{Target, parse_ws_url}
use leo_one.Desktop.{Session, Desktop, Request, rd_ws_url_max_len, begin_session, start}

abbrev pub is_some : Option Session → Bool
is_some none = false
is_some (some s) = true

-- The two globals agree: a thread runs exactly while there is a session.
pub record IsDesktop (d : Desktop) : Type 0 where
  pub agree : d.thread_running ≡ is_some d.ctx

start_by_target :
    (d : Desktop) (r : Request) (spawned : Bool) (o : Option Target)
    → IsDesktop d
    → d.ctx ≡ none
    → IsDesktop (begin_session d r spawned o).0
      × ((begin_session d r spawned o).1 ≡ false → (begin_session d r spawned o).0 ≡ d)
      × ((begin_session d r spawned o).1 ≡ true
          → is_some (begin_session d r spawned o).0.ctx ≡ true)
unfolding begin_session
start_by_target d r spawned none v h = (v, λ _. refl, λ e. ground arith)
start_by_target d r true (some t) v h = (record { agree = refl }, λ e. ground arith, λ _. refl)
start_by_target d r false (some t) v h = (
  record { agree = refl },
  λ _.
      desktop_eq (record { ctx = none; thread_running = false }) d (sym h)
        (sym (v.agree ∙ ap is_some h)),
  λ e. ground arith,
)
  where
    desktop_eq : (a b : Desktop) → a.ctx ≡ b.ctx → a.thread_running ≡ b.thread_running → a ≡ b
    desktop_eq a b e e' = λ i. record { ctx = e i; thread_running = e' i }

-- From globals that agree, a START leaves globals that agree; one that is accepted found no session
-- and leaves one; one that is rejected, for whatever reason, leaves the globals as they were.
pub start_once :
    (d : Desktop) (r : Request) (alloc spawned : Bool)
    → IsDesktop d
    → IsDesktop (start d r alloc spawned).0
      × ((start d r alloc spawned).1 ≡ false → (start d r alloc spawned).0 ≡ d)
      × ((start d r alloc spawned).1 ≡ true
          → (d.ctx ≡ none) × (is_some (start d r alloc spawned).0.ctx ≡ true))
unfolding start
start_once d r alloc spawned v = by_ctx d.ctx refl
  where
    outcome : Option Session → Desktop × Bool
    outcome o = elim o [
      | some s ↦ (d, false)
      | none ↦
          if alloc
          then begin_session d r spawned (parse_ws_url r.req_ws_url 256 rd_ws_url_max_len)
          else (d, false)
    ]

    by_ctx :
        (o : Option Session)
        → d.ctx ≡ o
        → IsDesktop (outcome o).0
          × ((outcome o).1 ≡ false → (outcome o).0 ≡ d)
          × ((outcome o).1 ≡ true → (d.ctx ≡ none) × (is_some (outcome o).0.ctx ≡ true))
    by_ctx (some s) e = (v, λ _. refl, λ h. ground arith)
    by_ctx none e = by_alloc alloc
      where
        began : Desktop × Bool
        began = begin_session d r spawned (parse_ws_url r.req_ws_url 256 rd_ws_url_max_len)

        by_alloc :
            (b : Bool)
            → IsDesktop (if b then began else (d, false)).0
              × ((if b then began else (d, false)).1 ≡ false
                  → (if b then began else (d, false)).0 ≡ d)
              × ((if b then began else (d, false)).1 ≡ true
                  → (d.ctx ≡ none) × (is_some (if b then began else (d, false)).0.ctx ≡ true))
        by_alloc false = (v, λ _. refl, λ h. ground arith)
        by_alloc true =
            let s =
              start_by_target d r spawned (parse_ws_url r.req_ws_url 256 rd_ws_url_max_len) v e in
            (s.0, s.1, λ h. (e, s.2 h))
