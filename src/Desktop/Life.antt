-- ===== src/Desktop/Life.antt =====
-- agent/src/remote_desktop.c: the life of the session threads, with each lock that a START and the end of
-- a thread take, and what the wait of `leo_rd_stop` and `leo_rd_stop_all` may conclude.
use mathlib.Core.Path.{subst}
use leo_one.Prelude.{
  ℕ, suc, ◌+◌, ◌≤◌, ◌≡◌, refl, ap, ◌⊎◌, inl, inr, Bool, true, false, Option, none, some, arith,
}
use leo_one.Url.{Target}
use leo_one.Desktop.{Session, Desktop, Request, claim, raise, forget, signal_exit, ask_stop}
use leo_one.Desktop.Single.{is_some}

-- Where the one thread that handles messages stands in `leo_rd_start`: outside, behind the lock that
-- records the session, behind the one that says that its thread runs, or, where pthread_create failed,
-- behind the one that forgets the session.
pub data Phase : Type 0 where
  free : Phase
  claimed : Phase
  raised : Phase
  failed : Phase

-- The globals, and how many session threads there are: before the two locks of their end, and between
-- them.
pub record Life : Type 0 where
  pub globals : Desktop
  pub phase : Phase
  pub alive : ℕ
  pub ending : ℕ

abbrev pub idle : Life
idle = record {
  globals = record { ctx = none; thread_running = false };
  phase = free;
  alive = 0;
  ending = 0;
}

-- The locks of a START, which finds no session, while no thread stands between the locks of its end; a
-- request to stop; and the two locks of the end of a session thread.
pub data Step (l : Life) : Life → Type 0 where
  claims :
      (r : Request) (t : Target)
      → l.phase ≡ free
      → l.globals.ctx ≡ none
      → l.ending ≡ 0
      → Step l (record l { globals = claim l.globals r t; phase = claimed })
  raises : l.phase ≡ claimed → Step l (record l { globals = raise l.globals; phase = raised })
  spawns : l.phase ≡ raised → Step l (record l { phase = free; alive = suc l.alive })
  fails : l.phase ≡ raised → Step l (record l { globals = forget l.globals; phase = failed })
  clears : l.phase ≡ failed → Step l (record l { globals = signal_exit l.globals; phase = free })
  asks : Step l (record l { globals = ask_stop l.globals })
  forgets :
      (n : ℕ)
      → l.alive ≡ suc n
      → Step l (record l { globals = forget l.globals; alive = n; ending = suc l.ending })
  signals :
      (n : ℕ) → l.ending ≡ suc n → Step l (record l { globals = signal_exit l.globals; ending = n })

pub data Reach : Life → Type 0 where
  boot : Reach idle
  next : {l l' : Life} → Reach l → Step l l' → Reach l'

-- What each place of the START says of whether there is a session, whether its thread is said to run, and
-- how many threads there are.
abbrev At : Phase → Bool → Bool → ℕ → Type 0
At free held runs n = runs ≡ false → held ≡ false
At claimed held runs n = (n ≡ 0) × (held ≡ true)
At raised held runs n = (n ≡ 0) × (held ≡ true) × (runs ≡ true)
At failed held runs n = (n ≡ 0) × (held ≡ false) × (runs ≡ true)

record Agrees (p : Phase) (held runs : Bool) (alive ending : ℕ) : Type 0 where
  few : alive + ending ≤ 1
  quiet : runs ≡ false → alive + ending ≡ 0
  lives : held ≡ false → alive ≡ 0
  left : held ≡ true → ending ≡ 0
  place : At p held runs (alive + ending)

abbrev IsLife : Life → Type 0
IsLife l = Agrees l.phase (is_some l.globals.ctx) l.globals.thread_running l.alive l.ending

At-phase : {p q : Phase} (held runs : Bool) (n : ℕ) → p ≡ q → At p held runs n → At q held runs n
At-phase held runs n e h = subst (λ x. At x held runs n) e h

claims-Agrees :
    {p : Phase} {held runs : Bool} {alive ending : ℕ}
    → held ≡ false
    → ending ≡ 0
    → Agrees p held runs alive ending
    → Agrees claimed true runs alive ending
claims-Agrees e z v = record {
  few = v.few;
  quiet = v.quiet;
  lives = λ h. ground arith;
  left = λ _. z;
  place = (omega (arith, v.lives e, z), refl);
}

raises-Agrees :
    {p : Phase} {held runs : Bool} {alive ending : ℕ}
    → p ≡ claimed
    → Agrees p held runs alive ending
    → Agrees raised held true alive ending
raises-Agrees {held} {runs} {alive} {ending} e v =
    let there = At-phase held runs (alive + ending) e v.place in
    record {
      few = v.few;
      quiet = λ h. ground arith;
      lives = v.lives;
      left = v.left;
      place = (there.0, there.1, refl);
    }

spawns-Agrees :
    {p : Phase} {held runs : Bool} {alive ending : ℕ}
    → p ≡ raised
    → Agrees p held runs alive ending
    → Agrees free held runs (suc alive) ending
spawns-Agrees {held} {runs} {alive} {ending} e v =
    let there = At-phase held runs (alive + ending) e v.place in
    record {
      few = omega (arith, there.0);
      quiet = λ h. ground (arith, h, there.2);
      lives = λ h. ground (arith, h, there.1);
      left = v.left;
      place = λ h. ground (arith, h, there.2);
    }

fails-Agrees :
    {p : Phase} {held runs : Bool} {alive ending : ℕ}
    → p ≡ raised
    → Agrees p held runs alive ending
    → Agrees failed false runs alive ending
fails-Agrees {held} {runs} {alive} {ending} e v =
    let there = At-phase held runs (alive + ending) e v.place in
    record {
      few = v.few;
      quiet = v.quiet;
      lives = λ _. omega (arith, there.0);
      left = λ h. ground arith;
      place = (there.0, refl, there.2);
    }

clears-Agrees :
    {p : Phase} {held runs : Bool} {alive ending : ℕ}
    → p ≡ failed
    → Agrees p held runs alive ending
    → Agrees free held false alive ending
clears-Agrees {held} {runs} {alive} {ending} e v =
    let there = At-phase held runs (alive + ending) e v.place in
    record {
      few = v.few;
      quiet = λ _. there.0;
      lives = v.lives;
      left = v.left;
      place = λ _. there.1;
    }

-- The first lock of the end of a thread is taken where no START is under way.
forgets-At :
    (p : Phase) (held runs : Bool) (n m : ℕ) → n ≡ suc m → At p held runs n → At p false runs n
forgets-At free held runs n m e h = λ _. refl
forgets-At claimed held runs n m e h = absurd (omega (arith, e, h.0))
forgets-At raised held runs n m e h = absurd (omega (arith, e, h.0))
forgets-At failed held runs n m e h = absurd (omega (arith, e, h.0))

forgets-Agrees :
    {p : Phase} {held runs : Bool} {alive ending : ℕ} (n : ℕ)
    → alive ≡ suc n
    → Agrees p held runs alive ending
    → Agrees p false runs n (suc ending)
forgets-Agrees {p} {held} {runs} {alive} {ending} n e v =
    let same : alive + ending ≡ n + suc ending = omega (arith, e) in
    record {
      few = omega (arith, same, v.few);
      quiet = λ h. absurd (omega (arith, v.quiet h, e));
      lives = λ _. omega (arith, e, v.few);
      left = λ h. ground arith;
      place =
          subst (At p false runs) same
            (forgets-At p held runs (alive + ending) (n + ending) (omega (arith, e)) v.place);
    }

signals-At :
    (p : Phase) (held runs : Bool) (n m : ℕ)
    → n ≡ suc m
    → held ≡ false
    → At p held runs n
    → At p held false m
signals-At free held runs n m e z h = λ _. z
signals-At claimed held runs n m e z h = absurd (omega (arith, e, h.0))
signals-At raised held runs n m e z h = absurd (omega (arith, e, h.0))
signals-At failed held runs n m e z h = absurd (omega (arith, e, h.0))

unheld : (held : Bool) (n ending : ℕ) → ending ≡ suc n → (held ≡ true → ending ≡ 0) → held ≡ false
unheld false n ending e h = refl
unheld true n ending e h = absurd (omega (arith, e, h refl))

signals-Agrees :
    {p : Phase} {held runs : Bool} {alive ending : ℕ} (n : ℕ)
    → ending ≡ suc n
    → Agrees p held runs alive ending
    → Agrees p held false alive n
signals-Agrees {p} {held} {runs} {alive} {ending} n e v =
    let none_held = unheld held n ending e v.left in
    record {
      few = omega (arith, e, v.few);
      quiet = λ _. omega (arith, e, v.few);
      lives = v.lives;
      left = λ _. omega (arith, e, v.few);
      place =
          signals-At p held runs (alive + ending) (alive + n) (omega (arith, e)) none_held v.place;
    }

abbrev asked : Desktop → Option Session → Desktop
asked d o = elim o [ none ↦ d | some s ↦ record d { ctx = some (record s { should_stop = true }) } ]

is_some-asked :
    (d : Desktop) (o : Option Session) → d.ctx ≡ o → is_some d.ctx ≡ is_some (asked d o).ctx
is_some-asked d none e = refl
is_some-asked d (some s) e = ap is_some e

runs-asked : (d : Desktop) (o : Option Session) → d.thread_running ≡ (asked d o).thread_running
runs-asked d none = refl
runs-asked d (some s) = refl

asks-IsLife : (l : Life) → IsLife l → IsLife (record l { globals = ask_stop l.globals })
unfolding ask_stop
asks-IsLife l v =
    let d = l.globals in
    subst (λ held. Agrees l.phase held (ask_stop d).thread_running l.alive l.ending)
      (is_some-asked d d.ctx refl)
      (subst (λ runs. Agrees l.phase (is_some d.ctx) runs l.alive l.ending) (runs-asked d d.ctx) v)

Step-IsLife : {l l' : Life} → IsLife l → Step l l' → IsLife l'
unfolding claim raise forget signal_exit
Step-IsLife v (claims r t e h z) = claims-Agrees (ap is_some h) z v
Step-IsLife v (raises e) = raises-Agrees e v
Step-IsLife v (spawns e) = spawns-Agrees e v
Step-IsLife v (fails e) = fails-Agrees e v
Step-IsLife v (clears e) = clears-Agrees e v
Step-IsLife {l} v asks = asks-IsLife l v
Step-IsLife v (forgets n e) = forgets-Agrees n e v
Step-IsLife v (signals n e) = signals-Agrees n e v

Reach-IsLife : {l : Life} → Reach l → IsLife l
Reach-IsLife boot = record {
  few = omega arith;
  quiet = λ _. refl;
  lives = λ _. refl;
  left = λ _. refl;
  place = λ _. refl;
}
Reach-IsLife (next r s) = Step-IsLife (Reach-IsLife r) s

is_none : (o : Option Session) → is_some o ≡ false → o ≡ none
is_none none h = refl
is_none (some s) h = absurd (ground (arith, h))

unclaimed :
    (p : Phase) (o : Option Session) (runs : Bool) (n : ℕ)
    → runs ≡ false
    → At p (is_some o) runs n
    → (o ≡ none) ⊎ (p ≡ claimed)
unclaimed free o runs n h place = inl (is_none o (place h))
unclaimed claimed o runs n h place = inr refl
unclaimed raised o runs n h place = absurd (ground (arith, h, place.2))
unclaimed failed o runs n h place = inl (is_none o place.1)

-- As long as no START is begun while a thread stands between the two locks of its end: wherever
-- g_rd_thread_running is false, no session thread has been created that has not taken both locks; and
-- there is no session either, unless a START stands between recording it and setting that flag.
pub Reach-joined :
    {l : Life}
    → Reach l
    → l.globals.thread_running ≡ false
    → (l.alive ≡ 0) × (l.ending ≡ 0) × ((l.globals.ctx ≡ none) ⊎ (l.phase ≡ claimed))
Reach-joined {l} r h =
    let v = Reach-IsLife r in
    let none_left = v.quiet h in
    (
      omega (arith, none_left),
      omega (arith, none_left),
      unclaimed l.phase l.globals.ctx _ _ h v.place,
    )
