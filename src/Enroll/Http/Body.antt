-- ===== src/Enroll/Http/Body.antt =====
-- agent/src/enroll.c: the request goes out whole and in order, and the response is kept from its start.
use leo_one.Prelude.{
  leb, leb→le, Bool-cases, length, take, drop, All, length-append, length-take, All-append,
  length-drop, take-drop, Bytes, ℕ, ◌+◌, ◌-◌, ◌≤◌, ◌≡◌, refl, sym, ap, ap₂, ◌∙◌, ◌↔◌, inl, inr,
  Bool, true, false, List, [], ◌∷◌, ◌++◌, append-nil, append_assoc, arith,
}
use leo_one.Types.{max_msg_size}
use leo_one.Enroll.Http.{
  HttpCtx, Event, connection_error, established_http, append_header, http_writeable, receive_http,
  receive_http_read, completed_http, closed_http, other_event, write_chunk, accumulate, next_chunk,
  is_last, write_body, after_write, on_event, on_events, opened,
}

abbrev pub sent_bytes : List (Bytes × Bool) → Bytes
sent_bytes [] = []
sent_bytes ((chunk, last) ∷ rest) = chunk ++ sent_bytes rest

-- Only a chunk that ends the body is marked as the last one.
abbrev pub Marked : ℕ → ℕ → List (Bytes × Bool) → Type 0
Marked total sent [] = Unit
Marked total sent ((chunk, last) ∷ rest) =
    ((last ≡ true) ↔ (total ≤ sent + length chunk)) × Marked total (sent + length chunk) rest

-- What has been written is the body up to `body_sent`, in chunks that fit the frame, of which exactly
-- those that reach the end of the body are Marked; the response fits its buffer.
abbrev pub IsExchange : HttpCtx → Type 0
IsExchange hc =
    (sent_bytes hc.written ≡ take hc.body_sent hc.body)
    × (hc.body_sent ≤ length hc.body)
    × Marked (length hc.body) 0 hc.written
    × All (λ w. length w.0 ≤ write_chunk) hc.written
    × (length hc.resp ≤ max_msg_size - 1)

sent_bytes-append : (a b : List (Bytes × Bool)) → sent_bytes (a ++ b) ≡ sent_bytes a ++ sent_bytes b
sent_bytes-append [] b = refl
sent_bytes-append ((chunk, last) ∷ a) b =
    ap (◌++◌ chunk) (sent_bytes-append a b) ∙ sym (append_assoc chunk (sent_bytes a) (sent_bytes b))

Marked-append :
    (total sent : ℕ) (a : List (Bytes × Bool)) (chunk : Bytes) (last : Bool)
    → Marked total sent a
    → ((last ≡ true) ↔ (total ≤ sent + length (sent_bytes a) + length chunk))
    → Marked total sent (a ++ ((chunk, last) ∷ []))
Marked-append total sent [] chunk last h k =
    ((λ e. omega (arith, k.0 e), λ e. k.1 (omega (arith, e))), tt)
Marked-append total sent ((c, l) ∷ a) chunk last h k = (
  h.0,
  Marked-append total (sent + length c) a chunk last h.1 (
    λ e. omega (arith, k.0 e, length-append c (sent_bytes a)),
    λ e. k.1 (omega (arith, e, length-append c (sent_bytes a))),
  ),
)

write_body-IsExchange : (hc : HttpCtx) → IsExchange hc → IsExchange (write_body hc)
unfolding write_body
write_body-IsExchange hc (whole, within, ends, small, bounded) =
    let chunk = next_chunk hc in
    let long : length chunk ≤ length hc.body - hc.body_sent = omega (
      arith,
      length-take write_chunk (drop hc.body_sent hc.body),
      length-drop hc.body_sent hc.body,
    ) in
    let short : length chunk ≤ write_chunk =
      omega (arith, length-take write_chunk (drop hc.body_sent hc.body)) in
    let so_far : length (sent_bytes hc.written) ≡ hc.body_sent =
      omega (arith, ap length whole, length-take hc.body_sent hc.body, within) in
    (
      sent_bytes-append hc.written ((chunk, is_last hc) ∷ [])
          ∙ ap₂ (◌++◌) whole (append-nil chunk)
          ∙ take-drop hc.body_sent write_chunk hc.body,
      omega (arith, long, within),
      Marked-append (length hc.body) 0 hc.written chunk (is_last hc) ends (
        λ e. omega (arith, leb→le (length hc.body) (hc.body_sent + length chunk) e, so_far),
        λ e. ground (arith, so_far, e),
      ),
      All-append (λ w. length w.0 ≤ write_chunk) hc.written ((chunk, is_last hc) ∷ []) small
          (short, tt),
      bounded,
    )

accumulate_bounded :
    (resp data_in : Bytes)
    → length resp ≤ max_msg_size - 1
    → length (accumulate resp data_in) ≤ max_msg_size - 1
unfolding accumulate
accumulate_bounded resp data_in h =
    let room = max_msg_size - 1 - length resp in
    omega (arith, length-append resp (take room data_in), length-take room data_in, h)

after_write-IsExchange : (hc : HttpCtx) → IsExchange hc → IsExchange (after_write hc)
unfolding after_write
after_write-IsExchange hc h = elim (Bool-cases (leb (length hc.body) hc.body_sent)) [
  | inl last ↦ rw last h
  | inr more ↦ rw more h
]

-- Every callback keeps the exchange in order.
pub on_event-IsExchange : (hc : HttpCtx) (e : Event) → IsExchange hc → IsExchange (on_event hc e).0
unfolding on_event
on_event-IsExchange hc connection_error h = h
on_event-IsExchange hc (established_http status) h = h
on_event-IsExchange hc (append_header true) h = h
on_event-IsExchange hc (append_header false) h = h
on_event-IsExchange hc (http_writeable true) h =
    after_write-IsExchange (write_body hc) (write_body-IsExchange hc h)
on_event-IsExchange hc (http_writeable false) h = write_body-IsExchange hc h
on_event-IsExchange hc (receive_http accepted) h = h
on_event-IsExchange hc (receive_http_read data_in) (whole, within, ends, small, bounded) =
    (whole, within, ends, small, accumulate_bounded hc.resp data_in bounded)
on_event-IsExchange hc completed_http h = h
on_event-IsExchange hc closed_http h = h
on_event-IsExchange hc other_event h = h

on_events-IsExchange_from :
    (hc : HttpCtx) (events : List Event) → IsExchange hc → IsExchange (on_events hc events)
unfolding on_events
on_events-IsExchange_from hc [] h = h
on_events-IsExchange_from hc (e ∷ events) h =
    on_events-IsExchange_from (on_event hc e).0 events (on_event-IsExchange hc e h)

opened-IsExchange : (body : Bytes) → IsExchange (opened body)
opened-IsExchange body = (refl, omega arith, tt, tt, omega arith)

-- Whatever callbacks run, in whatever order: the chunks that lws_write was handed are the beginning of
-- the body, in order and without a gap, each fits the frame, the flag that ends the body stands exactly on
-- those that reach its end, and the response fits its buffer.
pub on_events-IsExchange :
    (body : Bytes) (events : List Event) → IsExchange (on_events (opened body) events)
on_events-IsExchange body events =
    on_events-IsExchange_from (opened body) events (opened-IsExchange body)
