-- ===== src/Enroll/Flow/Stored.antt =====
-- agent/src/enroll.c: what an enrollment leaves on the disk, and what the next start reads of it.
use mathlib.Core.Path.{subst}
use leo_one.Prelude.{
  if◌then◌else◌, Bool-cases, length, take, take-of-le, ℕ, sym, ap, ◌∙◌, Bytes, ◌-◌, ◌≤◌, ◌≡◌, refl,
  ◌≢◌, ◌↔◌, ◌⊎◌, inl, inr, Bool, true, false, Option, none, some, [], ◌∷◌, arith,
}
use leo_one.Prelude.Int.{ℤ}
use leo_one.Types.{
  Config, LeoError, ok, err_config, err_network, err_tls, err_protocol, err_system, err_queue_full,
  err_timeout,
}
use leo_one.Protocol.Tree.{Cjson}
use leo_one.Settings.{is_valid, load, config_text, save}
use leo_one.Settings.Fits.{Fits, is_valid_iff, save-cases}
use leo_one.Settings.RoundTrip.{CanSave, load-config_text}
use leo_one.Url.{Target, http_parse_url}
use leo_one.Enroll.Bootstrap.{Bootstrap, load_bootstrap}
use leo_one.Enroll.Machine.{detect_hardware_id}
use leo_one.Enroll.Machine.Bounds.{
  length-detect_hostname, length-detect_os_version, length-detect_arch, IsId,
  detect_hardware_id-IsId,
}
use leo_one.Enroll.Http.{http_post_json}
use leo_one.Enroll.Response.{
  cert_buf_size, key_buf_size, build_enroll_request, parse_enroll_response,
}
use leo_one.Enroll.Response.Fields.{IsNamed, IsAccepted, parse_enroll_response-IsAccepted}
use leo_one.Enroll.Flow.{
  World, Enrolled, stopped, detected, saved_config, store, if_ok, answered, posted, reach_server,
  requested, identified, started, leo_enroll,
}

-- The credentials were written, and writing them succeeded; both fit their buffers.
abbrev pub Keeps : World → Option (Bytes × Bytes) → Type 0
Keeps w none = false ≡ true
Keeps w (some (cert, key)) =
    (w.saves_credentials cert key ≡ true)
    × (length cert ≤ cert_buf_size - 1)
    × (length key ≤ key_buf_size - 1)

-- The file holds as much of the configuration's text as there is room for.
abbrev pub Writes : Option ℕ → Config → Option Bytes → Type 0
Writes o cfg file = (room : ℕ) × (o ≡ some room) × (file ≡ some (take room (config_text cfg)))

-- An enrollment succeeded, with the credentials and the configuration written, and the bootstrap file
-- gone if remove succeeds; or it failed and the bootstrap file is still there.
abbrev pub IsOutcome : World → Enrolled → Type 0
IsOutcome w e =
    ((e.ret ≡ ok)
      × Writes w.config_room e.out_cfg e.config_file
      × (e.removes_bootstrap ≡ w.removes)
      × IsNamed e.out_cfg
      × Fits e.out_cfg
      × Keeps w e.credentials)
    ⊎ ((e.ret ≢ ok) × (e.removes_bootstrap ≡ false))

abbrev OutcomeIf : World → Option Enrolled → Type 0
OutcomeIf w none = Unit
OutcomeIf w (some e) = IsOutcome w e

saved_config-IsOutcome :
    (w : World) (o : Option ℕ) (cfg : Config) (cert key : Bytes)
    → w.config_room ≡ o
    → IsNamed cfg
    → Fits cfg
    → Keeps w (some (cert, key))
    → IsOutcome w (saved_config w cfg cert key (save o cfg))
saved_config-IsOutcome w o cfg cert key same n f kept = elim (save-cases o cfg) [
  | inl (room, opened, written) ↦
      rw written (unfold saved_config in inl (refl, (room, same ∙ opened, refl), refl, n, f, kept))
  | inr shut ↦ rw shut (unfold saved_config in inr ((λ e. cc), refl))
]

store-IsOutcome :
    (w : World) (p : LeoError × Config × Bytes × Bytes) → IsAccepted p → IsOutcome w (store w p)
unfolding store
store-IsOutcome w (ok, cfg, cert, key) h = elim (Bool-cases (w.saves_credentials cert key)) [
  | inl kept ↦
      rw kept (saved_config-IsOutcome w w.config_room cfg cert key refl h.0 h.1 (kept, h.2, h.3))
  | inr lost ↦ rw lost (inr ((λ e. cc), refl))
]
store-IsOutcome w (err_config, cfg, cert, key) h = inr ((λ e. cc), refl)
store-IsOutcome w (err_network, cfg, cert, key) h = inr ((λ e. cc), refl)
store-IsOutcome w (err_tls, cfg, cert, key) h = inr ((λ e. cc), refl)
store-IsOutcome w (err_protocol, cfg, cert, key) h = inr ((λ e. cc), refl)
store-IsOutcome w (err_system, cfg, cert, key) h = inr ((λ e. cc), refl)
store-IsOutcome w (err_queue_full, cfg, cert, key) h = inr ((λ e. cc), refl)
store-IsOutcome w (err_timeout, cfg, cert, key) h = inr ((λ e. cc), refl)

ok_if : (b : Bool) → ((if b then ok else err_config) ≡ ok) ↔ (b ≡ true)
ok_if true = (λ e. refl, λ e. refl)
ok_if false = (λ e. cc, λ e. cc)

if_ok-P :
    {R : Type 0} (P : R → Type 0) (e : LeoError) (next : R) (fail : LeoError → R)
    → P next
    → ((rc : LeoError) → rc ≢ ok → P (fail rc))
    → P (if_ok e next fail)
unfolding if_ok
if_ok-P P ok next fail h k = h
if_ok-P P err_config next fail h k = k err_config (λ e. cc)
if_ok-P P err_network next fail h k = k err_network (λ e. cc)
if_ok-P P err_tls next fail h k = k err_tls (λ e. cc)
if_ok-P P err_protocol next fail h k = k err_protocol (λ e. cc)
if_ok-P P err_system next fail h k = k err_system (λ e. cc)
if_ok-P P err_timeout next fail h k = k err_timeout (λ e. cc)
if_ok-P P err_queue_full next fail h k = k err_queue_full (λ e. cc)

module _ {Node : Type 0} (cj : Cjson Node) (w : World) where
  answered-IsOutcome :
      (cfg : Config) (r : LeoError × Bytes × ℤ) → Fits cfg → IsOutcome w (answered cj w cfg r)
  unfolding answered
  answered-IsOutcome cfg (e, text, status) h =
      if_ok-P (IsOutcome w) e (store w (parse_enroll_response cj text status cfg))
        (λ rc. stopped rc cfg)
        (store-IsOutcome w (parse_enroll_response cj text status cfg)
          (parse_enroll_response-IsAccepted cj text status cfg h))
        (λ rc broken. inr (broken, refl))

  posted-OutcomeIf :
      (cfg : Config) (r : Option (LeoError × Bytes × ℤ))
      → Fits cfg
      → OutcomeIf w (posted cj w cfg r)
  unfolding posted
  posted-OutcomeIf cfg none h = tt
  posted-OutcomeIf cfg (some r) h = answered-IsOutcome cfg r h

  reach_server-OutcomeIf :
      (cfg : Config) (body : Bytes) (t : Option Target)
      → Fits cfg
      → OutcomeIf w (reach_server cj w cfg body t)
  unfolding reach_server
  reach_server-OutcomeIf cfg body none h = inr ((λ e. cc), refl)
  reach_server-OutcomeIf cfg body (some t) h =
      posted-OutcomeIf cfg (http_post_json (w.network t body) body) h

  requested-OutcomeIf :
      (bs : Bootstrap) (cfg : Config) (o : Option Bytes)
      → Fits cfg
      → OutcomeIf w (requested cj w bs cfg o)
  unfolding requested
  requested-OutcomeIf bs cfg none h = inr ((λ e. cc), refl)
  requested-OutcomeIf bs cfg (some []) h = inr ((λ e. cc), refl)
  requested-OutcomeIf bs cfg (some (c ∷ body)) h =
      reach_server-OutcomeIf cfg (c ∷ body) (http_parse_url bs.api_endpoint 256 0) h

  identified-OutcomeIf :
      (bs : Bootstrap) (cfg : Config) (o : Option Bytes)
      → Fits cfg
      → IsId o
      → OutcomeIf w (identified cj w bs cfg o)
  unfolding identified
  identified-OutcomeIf bs cfg none h k = inr ((λ e. cc), refl)
  identified-OutcomeIf bs cfg (some id) h k =
      let known : Config = record cfg { hardware_id = id } in
      requested-OutcomeIf bs known (build_enroll_request cj 2048 bs.enrollment_token known) (
        h.0,
        (
          h.1.0,
          (
            h.1.1.0,
            (h.1.1.1.0, (h.1.1.1.1.0, (h.1.1.1.1.1.0, (h.1.1.1.1.1.1.0, (k, h.1.1.1.1.1.1.1.1))))),
          ),
        ),
      )

  detected-Fits : Fits (detected w)
  unfolding detected
  detected-Fits = (
    omega arith,
    (
      omega arith,
      (
        omega arith,
        (
          length-detect_hostname w.hostname,
          (
            omega arith,
            (
              length-detect_os_version w.os_release w.uname_release,
              (length-detect_arch w.processor, (omega arith, omega arith)),
            ),
          ),
        ),
      ),
    ),
  )

  started-OutcomeIf : (old : Config) (b : LeoError × Bootstrap) → OutcomeIf w (started cj w old b)
  unfolding started
  started-OutcomeIf old (e, bs) =
      if_ok-P (OutcomeIf w) e (identified cj w bs (detected w) (detect_hardware_id w.id_files))
        (λ rc. some (stopped err_config old))
        (identified-OutcomeIf bs (detected w) (detect_hardware_id w.id_files) detected-Fits
          (detect_hardware_id-IsId w.id_files))
        (λ rc broken. inr ((λ e. cc), refl))

  -- However an enrollment that returns has ended: either it reports success, saving the credentials
  -- reported success, agent.conf was opened and holds as much of the configuration's text as reached it,
  -- the server has named the agent, its tenant, the endpoint and the certificate, every string fits its
  -- array, and the bootstrap file is gone exactly if remove succeeded; or it reports an error and the
  -- bootstrap file is left alone.
  pub leo_enroll-IsOutcome :
      (old : Config) (e : Enrolled) → leo_enroll cj w old ≡ some e → IsOutcome w e
  leo_enroll-IsOutcome old e h =
      subst (OutcomeIf w) h
        (unfold leo_enroll in started-OutcomeIf old (load_bootstrap w.bootstrap))

  stored :
      (e : Enrolled)
      → IsOutcome w e
      → e.ret ≡ ok
      → Writes w.config_room e.out_cfg e.config_file × IsNamed e.out_cfg
  stored e (inl h) success = (h.1, h.3)
  stored e (inr h) success = absurd (h.0 success)

  -- The text that was written, if there was room for all of it.
  whole_text :
      (cfg : Config) (file : Option Bytes) (room : ℕ)
      → Writes w.config_room cfg file
      → w.config_room ≡ some room
      → length (config_text cfg) ≤ room
      → file ≡ some (config_text cfg)
  whole_text cfg file room (n, opened, written) has_room fits =
      let same : n ≡ room = ap (get_some 0) (sym opened ∙ has_room) in
      written ∙ ap some (take-of-le n (config_text cfg) (omega (arith, same, fits)))
    where
      get_some : ℕ → Option ℕ → ℕ
      get_some d none = d
      get_some d (some k) = k

  -- The next start, behind an enrollment that reported success, whose values the file can hold and whose
  -- text reached the file as a whole, reads exactly the enrolled configuration, and accepts it exactly if
  -- the fingerprint in it, which is the server's cut to 64 characters, has 64 characters.
  pub leo_enroll-load :
      (old next : Config) (e : Enrolled) (room : ℕ)
      → leo_enroll cj w old ≡ some e
      → e.ret ≡ ok
      → CanSave e.out_cfg
      → w.config_room ≡ some room
      → length (config_text e.out_cfg) ≤ room
      → ((load e.config_file next).1 ≡ e.out_cfg)
        × (((load e.config_file next).0 ≡ ok) ↔ (length e.out_cfg.ca_fingerprint ≡ 64))
  leo_enroll-load old next e room h success clean has_room fits =
      let (written, named) = stored e (leo_enroll-IsOutcome old e h) success in
      let text = whole_text e.out_cfg e.config_file room written has_room fits in
      let valid = is_valid_iff e.out_cfg in
      let test = ok_if (is_valid e.out_cfg) in
      rw (text, load-config_text e.out_cfg next clean)
        (
          refl,
          (
            (λ accepted. (valid.0 (test.0 accepted)).0),
            (λ long. test.1 (valid.1 (long, named.0, named.1, named.2))),
          ),
        )
