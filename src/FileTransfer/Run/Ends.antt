-- ===== src/FileTransfer/Run/Ends.antt =====
-- A file transfer ends, whatever the server does.
use leo_one.Prelude.{
  ltb, if◌then◌else◌, take, Bytes, bytes, ℕ, ◌+◌, ◌≤◌, ◌<◌, ◌⊎◌, inl, inr, ◌≡◌, refl, Bool, true,
  false, not, Option, none, some, List, [], ◌∷◌, ◌++◌, arith,
}
use leo_one.Types.{uuid_str_max, workdir, file_url_max_len, LeoError, err_protocol, err_system}
use leo_one.Protocol.{Stamp}
use leo_one.Protocol.Tree.{Cjson}
use leo_one.Conn.{Conn}
use leo_one.Url.{Target, http_parse_url}
use leo_one.FileTransfer.{Download}
use leo_one.FileTransfer.Run.{
  effective_timeout, filename_valid, Setup, Round, Ending, Finished, give_up, on_events,
  download_loop, conclude, begin_download, fetch, prepare, run,
}

-- A round that finds the clock past a time.
abbrev pub Passes : ℕ → List Round → Type 0
Passes time [] = false ≡ true
Passes time (r ∷ rs) = (time < r.now_sec) ⊎ Passes time rs

Passes-le : (a b : ℕ) (rounds : List Round) → a ≤ b → Passes b rounds → Passes a rounds
Passes-le a b [] h k = k
Passes-le a b (r ∷ rs) h (inl late) = inl (omega (arith, h, late))
Passes-le a b (r ∷ rs) h (inr later) = inr (Passes-le a b rs h later)

-- The time by which a transfer is over: 30 s behind its start, or its timeout if that is longer.
abbrev pub Overruns : ℕ → Setup → List Round → Type 0
Overruns timeout_secs setup rounds =
    (limit : ℕ) × (30 ≤ limit) × (timeout_secs ≤ limit) × Passes (setup.start_sec + limit) rounds

in_time :
    (timeout_secs : ℕ) (setup : Setup) (rounds : List Round)
    → Overruns timeout_secs setup rounds
    → Passes (setup.start_sec + effective_timeout timeout_secs) rounds
in_time timeout_secs setup rounds (limit, least, longer, passes) =
    let short : effective_timeout timeout_secs ≤ limit = ground (arith, least, longer) in
    Passes-le (setup.start_sec + effective_timeout timeout_secs) (setup.start_sec + limit) rounds
      (omega (arith, short)) passes

abbrev IsResult {ℓ} : {A : Type ℓ} → Option A → Type ℓ
IsResult {A} o = (p : A) × (o ≡ some p)

some_if {ℓ} :
    {A : Type ℓ} (b : Bool) (x y : Option A)
    → (b ≡ true → IsResult x)
    → (b ≡ false → IsResult y)
    → IsResult (if b then x else y)
some_if true x y f g = f refl
some_if false x y f g = g refl

module _ {Node : Type 0} (cj : Cjson Node) where
  -- A loop one of whose rounds finds the clock past the deadline ends, whatever the server does.
  pub deadline_ends :
      (deadline : ℕ) (dl : Download) (rounds : List Round)
      → Passes deadline rounds
      → (p : Download × LeoError) × (download_loop cj deadline dl rounds ≡ some p)
  unfolding download_loop
  deadline_ends deadline dl [] h = absurd (ground (arith, h))
  deadline_ends deadline dl (r ∷ rs) h =
      some_if dl.done _ _ (λ _. (_, refl))
        (λ _.
          some_if r.service_failed _ _ (λ _. (_, refl))
            (λ _.
              some_if (ltb deadline r.now_sec) _ _ (λ _. (_, refl))
                (λ early. deadline_ends deadline (on_events cj dl r.events) rs (elim h [
                  | inl late ↦ absurd (ground (arith, early, late))
                  | inr later ↦ later
                ]))))

  fetch_ends :
      (target : Target) (dl : Download) (setup : Setup) (filename expected : Bytes)
      (timeout_secs : ℕ) (rounds : List Round) (ending : Ending) (st st' : Stamp)
      → Overruns timeout_secs setup rounds
      → IsResult (fetch cj target dl setup filename expected timeout_secs rounds ending st st')
  unfolding fetch
  fetch_ends target dl setup filename expected timeout_secs rounds ending st st' h =
      let (p, e) =
        deadline_ends (setup.start_sec + effective_timeout timeout_secs)
          (record dl { limit_secs = effective_timeout timeout_secs }) rounds
          (in_time timeout_secs setup rounds h) in
      some_if (not setup.context_made) _ _ (λ _. (_, refl))
        (λ _.
          some_if (not setup.connected) _ _ (λ _. (_, refl))
            (λ _. (conclude cj p filename expected ending st st', rw e refl)))

  prepare_ends :
      (target : Target) (c : Conn) (cmd_id : Bytes) (setup : Setup) (filename expected : Bytes)
      (size timeout_secs : ℕ) (rounds : List Round) (ending : Ending) (st st' st'' : Stamp)
      → Overruns timeout_secs setup rounds
      → IsResult (
          prepare cj target c cmd_id setup filename expected size timeout_secs rounds ending st st'
            st'')
  unfolding prepare
  prepare_ends target c cmd_id setup filename expected size timeout_secs rounds ending st st' st''
        h =
      some_if (not setup.workdir_made) _ _ (λ _. (_, refl)) (λ _. by_open setup.open_error)
    where
      by_open :
          (o : Option Bytes)
          → IsResult (elim o [
            | some err ↦ some (
                give_up err_system
                  (bytes "Impossible de créer '"
                    ++ (workdir ++ (take uuid_str_max cmd_id ++ (bytes ".part' : " ++ err))))
                  c)
            | none ↦
                if not setup.digest_ready
                then some (give_up err_system (bytes "Initialisation SHA-256 échouée") c)
                else fetch cj target
                    (begin_download cj c cmd_id size st)
                    setup
                    filename
                    expected
                    timeout_secs
                    rounds
                    ending
                    st'
                    st''
          ])
      by_open (some err) = (_, refl)
      by_open none =
          some_if (not setup.digest_ready) _ _ (λ _. (_, refl))
            (λ _.
              fetch_ends target (begin_download cj c cmd_id size st) setup filename expected
                timeout_secs rounds ending st' st'' h)

-- A file transfer returns a result if one of its rounds finds the clock more than 30 s and more than its
-- timeout past its start, whatever else the server, the disk and the other rounds do.
pub run_ends :
    {Node : Type 0} (cj : Cjson Node) (c : Conn) (cmd_id url filename expected : Bytes)
    (size timeout_secs : ℕ) (setup : Setup) (rounds : List Round) (ending : Ending)
    (st st' st'' : Stamp)
    → Overruns timeout_secs setup rounds
    → (f : Finished) × (run cj c cmd_id url filename expected size timeout_secs setup rounds ending
          st st' st''
        ≡ some f)
unfolding run
run_ends cj c cmd_id url filename expected size timeout_secs setup rounds ending st st' st'' h =
    some_if (not (filename_valid filename)) _ _ (λ _. (_, refl))
      (λ _. by_url (http_parse_url url 256 file_url_max_len))
  where
    by_url :
        (o : Option Target)
        → IsResult (elim o [
          | none ↦ some (give_up err_protocol (bytes "URL de téléchargement invalide") c)
          | some target ↦
              prepare cj target c cmd_id setup filename expected size timeout_secs rounds ending st
                st' st''
        ])
    by_url none = (_, refl)
    by_url (some target) =
        prepare_ends cj target c cmd_id setup filename expected size timeout_secs rounds ending st
          st' st'' h
