-- ===== src/FileTransfer/Run/Received.antt =====
-- agent/src/file_transfer.c: which bytes a download that has not failed holds when its loop is over.
use leo_one.Prelude.{
  if◌then◌else◌, ltb, length, Bytes, bytes, ℕ, ◌≡◌, refl, sym, ap, ◌∙◌, Bool, true, false, not,
  ◌||◌, ◌&&◌, Option, none, some, List, [], ◌∷◌, ◌++◌, append-nil, append_assoc, arith,
}
use leo_one.Prelude.Decimal.{decimal}
use leo_one.Types.{LeoError, ok, err_timeout}
use leo_one.Protocol.{Stamp}
use leo_one.Protocol.Tree.{Cjson}
use leo_one.FileTransfer.{
  Download, Event, connection_error, response, chunk, http_closed, timer, is_200, on_event, respond,
  write_chunk, after_write, report_progress, in_256,
}
use leo_one.FileTransfer.Run.{Round, on_events, download_loop}

abbrev pub data_of : Event → Bytes
data_of (chunk data_in write_error st) = data_in
data_of _ = []

-- The callbacks that end the loop.
abbrev pub is_last : Event → Bool
is_last (connection_error reason) = true
is_last http_closed = true
is_last timer = true
is_last _ = false

abbrev pub any_last : List Event → Bool
any_last [] = false
any_last (e ∷ es) = is_last e || any_last es

abbrev pub data_in_all : List Event → Bytes
data_in_all [] = []
data_in_all (e ∷ es) = data_of e ++ data_in_all es

-- The bytes that the callbacks bring in the rounds up to the first that ends the loop.
abbrev pub received : List Round → Bytes
received [] = []
received (r ∷ rs) = data_in_all r.events ++ (if any_last r.events then [] else received rs)

-- If the callback leaves no failure, there was none, and the bytes it brings are kept.
record Keeps (dl : Download) (got : Bytes) (last : Bool) (d : Download) : Type 0 where
  fine : dl.has_failed ≡ false
  kept : d.content ≡ dl.content ++ got
  ends : d.done ≡ dl.done || last

Keeps-chunk-if :
    (b : Bool) (dl x y : Download) (got : Bytes) (last : Bool)
    → (b ≡ true → x.has_failed ≡ false → Keeps dl got last x)
    → (b ≡ false → y.has_failed ≡ false → Keeps dl got last y)
    → (if b then x else y).has_failed ≡ false
    → Keeps dl got last (if b then x else y)
Keeps-chunk-if true dl x y got last f g = f refl
Keeps-chunk-if false dl x y got last f g = g refl

or_false : (b : Bool) → b ≡ b || false
or_false true = refl
or_false false = refl

no_bytes : (got : Bytes) → ltb 0 (length got) ≡ false → got ≡ []
no_bytes [] h = refl
no_bytes (c ∷ got) h = absurd (ground (arith, h))

module _ {Node : Type 0} (cj : Cjson Node) where
  write_chunk-Keeps :
      (dl : Download) (got : Bytes) (err : Option Bytes) (st : Stamp)
      → dl.has_failed ≡ false
      → (write_chunk cj dl got err st).has_failed ≡ false
      → Keeps dl got false (write_chunk cj dl got err st)
  unfolding write_chunk after_write report_progress
  write_chunk-Keeps dl got (some err) st fine h = absurd (ground (arith, h))
  write_chunk-Keeps dl got none st fine h =
      Keeps-chunk-if _ dl _ _ got false
        (λ _ _. record { fine = fine; kept = refl; ends = or_false dl.done })
        (λ _ _. record { fine = fine; kept = refl; ends = or_false dl.done }) h

  on_event-Keeps :
      (dl : Download) (e : Event)
      → (on_event cj dl e).has_failed ≡ false
      → Keeps dl (data_of e) (is_last e) (on_event cj dl e)
  unfolding on_event respond
  on_event-Keeps dl (connection_error reason) h = absurd (ground (arith, h))
  on_event-Keeps dl (response status content_length) h =
      Keeps-chunk-if (is_200 status) dl _ _ [] false
        (λ _ fine. record {
          fine = fine;
          kept = sym (append-nil dl.content);
          ends = or_false dl.done;
        })
        (λ _ fails. absurd (ground (arith, fails))) h
  on_event-Keeps dl (chunk data_in write_error st) h =
      Keeps-chunk-if (ltb 0 (length data_in) && not dl.has_failed) dl _ _ data_in false
        (λ fed fine. write_chunk-Keeps dl data_in write_error st (ground (arith, fed)) fine)
        (λ unfed fine. record {
          fine = fine;
          kept =
              sym (append-nil dl.content)
              ∙ ap (λ s. dl.content ++ s) (sym (no_bytes data_in (ground (arith, unfed, fine))));
          ends = or_false dl.done;
        })
        h
  on_event-Keeps dl http_closed h = record {
    fine = h;
    kept = sym (append-nil dl.content);
    ends = ground arith;
  }
  on_event-Keeps dl timer h = absurd (ground (arith, h))

  on_events-Keeps :
      (dl : Download) (es : List Event)
      → (on_events cj dl es).has_failed ≡ false
      → Keeps dl (data_in_all es) (any_last es) (on_events cj dl es)
  unfolding on_events
  on_events-Keeps dl [] h = record {
    fine = h;
    kept = sym (append-nil dl.content);
    ends = or_false dl.done;
  }
  on_events-Keeps dl (e ∷ es) h =
      let later = on_events-Keeps (on_event cj dl e) es h in
      let now = on_event-Keeps dl e later.fine in
      record {
        fine = now.fine;
        kept =
            later.kept
            ∙ ap (λ s. s ++ data_in_all es) now.kept
            ∙ append_assoc dl.content (data_of e) (data_in_all es);
        ends = ground (arith, later.ends, now.ends);
      }

  -- What the loop gives, if it has not failed.
  abbrev pub Holds : Download → Bytes → Option (Download × LeoError) → Type 0
  Holds dl total none = Unit
  Holds dl total (some (d, code)) =
      d.has_failed ≡ false → (dl.has_failed ≡ false) × (d.content ≡ total)

  Holds-if :
      (b : Bool) (dl : Download) (total : Bytes) (x y : Option (Download × LeoError))
      → (b ≡ true → Holds dl total x)
      → (b ≡ false → Holds dl total y)
      → Holds dl total (if b then x else y)
  Holds-if true dl total x y f g = f refl
  Holds-if false dl total x y f g = g refl

  abbrev pub to_come : Download → List Round → Bytes
  to_come dl rounds = dl.content ++ (if dl.done then [] else received rounds)

  Holds-round :
      (dl : Download) (r : Round) (rs : List Round) (o : Option (Download × LeoError))
      → dl.done ≡ false
      → Holds (on_events cj dl r.events) (to_come (on_events cj dl r.events) rs) o
      → Holds dl (dl.content ++ received (r ∷ rs)) o
  Holds-round dl r rs none going h = tt
  Holds-round dl r rs (some (d, code)) going h = λ fine. (
    (on_events-Keeps dl r.events (h fine).0).fine,
    (let k = on_events-Keeps dl r.events (h fine).0 in
        let ended : (on_events cj dl r.events).done ≡ any_last r.events =
          k.ends ∙ ap (λ b. b || any_last r.events) going in
        (h fine).1
        ∙ ap (λ b. (on_events cj dl r.events).content ++ (if b then [] else received rs)) ended
        ∙ ap (λ s. s ++ (if any_last r.events then [] else received rs)) k.kept
        ∙ append_assoc dl.content (data_in_all r.events)
            (if any_last r.events then [] else received rs)),
  )

  pub download_loop-Holds :
      (deadline : ℕ) (dl : Download) (rounds : List Round)
      → Holds dl (to_come dl rounds) (download_loop cj deadline dl rounds)
  unfolding download_loop
  download_loop-Holds deadline dl [] = by_done dl.done
    where
      by_done :
          (b : Bool)
          → Holds dl (dl.content ++ (if b then [] else [])) (if b then some (dl, ok) else none)
      by_done true = λ fine. (fine, sym (append-nil dl.content))
      by_done false = tt
  download_loop-Holds deadline dl (r ∷ rs) =
      by_done dl.done refl (download_loop-Holds deadline (on_events cj dl r.events) rs)
    where
      open_round :
          (err err' : Bytes)
          → dl.done ≡ false
          → Holds
              (on_events cj dl r.events)
              (to_come (on_events cj dl r.events) rs)
              (download_loop cj deadline (on_events cj dl r.events) rs)
          → Holds dl (dl.content ++ received (r ∷ rs)) (
              if r.service_failed
              then some (record (on_events cj dl r.events) { has_failed = true; err_buf = err }, ok)
              else if ltb deadline r.now_sec
              then some (
                record (on_events cj dl r.events) { has_failed = true; err_buf = err' },
                err_timeout,
              )
              else download_loop cj deadline (on_events cj dl r.events) rs)
      open_round err err' going later =
          Holds-if r.service_failed dl _ _ _ (λ _ fine. absurd (ground (arith, fine)))
            (λ _.
              Holds-if (ltb deadline r.now_sec) dl _ _ _ (λ _ fine. absurd (ground (arith, fine)))
                (λ _. Holds-round dl r rs _ going later))

      by_done :
          (b : Bool)
          → dl.done ≡ b
          → Holds
              (on_events cj dl r.events)
              (to_come (on_events cj dl r.events) rs)
              (download_loop cj deadline (on_events cj dl r.events) rs)
          → Holds dl (dl.content ++ (if b then [] else received (r ∷ rs))) (
              if b
              then some (dl, ok)
              else if r.service_failed
              then some (
                record (on_events cj dl r.events) {
                  has_failed = true;
                  err_buf = bytes "Erreur du client HTTP pendant le transfert";
                },
                ok,
              )
              else if ltb deadline r.now_sec
              then some (
                record (on_events cj dl r.events) {
                  has_failed = true;
                  err_buf =
                      in_256
                        (bytes "Timeout du transfert (" ++ (decimal dl.limit_secs ++ bytes "s)"));
                },
                err_timeout,
              )
              else download_loop cj deadline (on_events cj dl r.events) rs)
      by_done true e later = λ fine. (fine, sym (append-nil dl.content))
      by_done false e later = open_round _ _ e later
