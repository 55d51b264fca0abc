-- ===== src/Enroll/Http/Ends.antt =====
-- agent/src/enroll.c: the request does not wait behind its 15 seconds.
use leo_one.Prelude.{
  ltb, if◌then◌else◌, Bool-cases, Bytes, ℕ, ◌+◌, ◌<◌, ◌≡◌, refl, ◌⊎◌, inl, inr, Bool, true, false,
  not, ◌||◌, Option, none, some, List, [], ◌∷◌, arith,
}
use leo_one.Prelude.Int.{ℤ, pos}
use leo_one.Types.{LeoError, err_network}
use leo_one.Enroll.Http.{
  HttpCtx, on_events, Service, service_step, service_loop, opened, timeout_sec, Network, answer,
  answer_if, http_post_json,
}

-- Some turn of the loop finds the clock behind the deadline.
abbrev pub Overruns : ℕ → List Service → Type 0
Overruns deadline [] = ⊥
Overruns deadline (s ∷ turns) = (deadline < s.now_sec) ⊎ Overruns deadline turns

abbrev Returns : Option HttpCtx → Type 0
Returns o = (hc : HttpCtx) × (o ≡ some hc)

if-Returns :
    (b : Bool) (hc : HttpCtx) (o : Option HttpCtx) → Returns o → Returns (if b then some hc else o)
if-Returns true hc o h = (hc, refl)
if-Returns false hc o h = h

service_loop-Overruns :
    (deadline : ℕ) (turns : List Service) (hc : HttpCtx)
    → Overruns deadline turns
    → Returns (service_loop deadline turns hc)
unfolding service_loop service_step
service_loop-Overruns deadline [] hc h = absurd h
service_loop-Overruns deadline (s ∷ turns) hc h =
    let now = on_events hc s.events in
    if-Returns hc.done hc (service_step deadline s (λ hc'. service_loop deadline turns hc') now)
      (elim h [
        | inl late ↦
            let fails : (s.broken || ltb deadline s.now_sec) ≡ true = ground (arith, late) in
            (record now { failed = true }, rw fails refl)
        | inr later ↦
            if-Returns (s.broken || ltb deadline s.now_sec) (record now { failed = true })
              (service_loop deadline turns now) (service_loop-Overruns deadline turns now later)
      ])

answer_if-some :
    (o : Option HttpCtx)
    → (hc : HttpCtx) × (o ≡ some hc)
    → (r : LeoError × Bytes × ℤ) × (answer_if o ≡ some r)
unfolding answer_if
answer_if-some none h = absurd cc
answer_if-some (some hc) h = (answer hc, refl)

-- A request returns if a turn of its loop finds the clock more than 15 s past the start, whatever the
-- network does.
pub http_post_json-Overruns :
    (net : Network) (body : Bytes)
    → Overruns (net.start_sec + timeout_sec) net.turns
    → (r : LeoError × Bytes × ℤ) × (http_post_json net body ≡ some r)
unfolding http_post_json
http_post_json-Overruns net body h = elim (Bool-cases (not net.has_context || not net.has_wsi)) [
  | inl missing ↦ ((err_network, [], pos 0), rw missing refl)
  | inr reaches ↦ rw reaches (
      answer_if-some
        (service_loop (net.start_sec + timeout_sec) net.turns
          (on_events (opened body) net.on_connect))
        (service_loop-Overruns (net.start_sec + timeout_sec) net.turns
          (on_events (opened body) net.on_connect) h))
]
