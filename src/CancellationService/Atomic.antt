-- ===== src/CancellationService/Atomic.antt =====
-- `cancel` on every branch: a booking that is reported as cancelled is cancelled, and a call that
-- raises has committed nothing.
use mathlib.Core.Option.{some-injective}
use vapivoiceassistant.Prelude.{
  String, ◌≡◌, ◌⊎◌, inl, inr, refl, ap, sym, ◌∙◌, subst, Bool, true, false, not, Option, none, some,
  ◌==◌, All,
}
use vapivoiceassistant.Prelude.Int.{pos, leb_ℤ}
use vapivoiceassistant.Errors.{Action, pure, validation_failed_error}
use vapivoiceassistant.Models.{Booking, Payment}
use vapivoiceassistant.Idempotency.{StoredResult, IdempotencyStore}
use vapivoiceassistant.Idempotency.Laws.{begin-lookup}
use vapivoiceassistant.Prelude.Dict.{lookup}
use vapivoiceassistant.Database.{
  Db, commit, rollback, get_latest_for_booking, get_by_pnr, update_booking, record_audit_event,
}
use vapivoiceassistant.Database.Rows.{ShowsOpen, find_elim}
use vapivoiceassistant.PaymentProvider.{PaymentProvider}
use vapivoiceassistant.AirlineProvider.{AirlineProvider, CancellationResult}
use vapivoiceassistant.Services.{
  World, Env, ◌>>=◌, ◌>>◌, raise_if, query, modify, begin_key, call_provider, or_undo, find_booking,
}
use vapivoiceassistant.Services.Outcomes.{
  After, Ensures, bind-Ensures, call_provider-Ensures, or_undo-Ensures, if-Ensures, pure-Ensures,
  guard-Ensures, find_booking-Ensures, weaken,
}
use vapivoiceassistant.PaymentService.Refund.{refundable}
use vapivoiceassistant.PaymentService.Refund.Totals.{
  IsWithin, RefundsExactly, IsPaid, refundable_lem,
}
use vapivoiceassistant.PaymentService.Refund.Balanced.{IsBalanced}
use vapivoiceassistant.CancellationService.{
  BookingCancelRequest, set_status, capped, on_airline, refund_outcome, attempt_refund,
  refund_latest, refund_found, refund_if_paid, report_cancelled, close_booking, cancel_with_airline,
  is_completed, cancel_once, cancel_found, cancel,
}
use vapivoiceassistant.CancellationService.Cancelled.{
  IsCancelled, All-update_rows, set_status-IsCancelled, capped_fits, nothing_fits,
  refund_outcome-Ensures, attempt_refund-Ensures,
}

-- Only a replay, or a booking that was cancelled before, is not cancelled now.
abbrev Cancels :
    {A S : Type 0}
    → BookingCancelRequest
    → Db
    → IdempotencyStore
    → Booking × Bool
    → World (A × S)
    → Type 0
Cancels request d1 s0 r w =
    IsBalanced w
    × (r.1 ≡ false
        → is_completed (lookup request.idempotency_key s0) ≡ false
        → (booking : Booking) → get_by_pnr request.pnr d1 ≡ some booking
        → All (IsCancelled booking.id) w.session.committed.bookings)

module _ {A S : Type 0} (airline : AirlineProvider A) (provider : PaymentProvider S)
    (exact : RefundsExactly provider) (env : Env) (d0 : Db) where
  abbrev Before : World (A × S) → Type 0
  Before w = IsBalanced w × (w.session.committed ≡ d0)

  abbrev Closed : Booking → World (A × S) → Type 0
  Closed booking w = Before w × All (IsCancelled booking.id) w.session.working.bookings

  refund_latest-Ensures :
      (key : String) (booking : Booking) (result : CancellationResult) (latest : Option Payment)
      (x : Option (Payment × String))
      → refundable latest ≡ x
      → Ensures
          (λ w. Closed booking w × (get_latest_for_booking booking.id w.session.working ≡ latest))
          (refund_latest airline provider env key booking result x)
          (λ _. Closed booking)
          (λ _. Before)
  unfolding get_latest_for_booking
  refund_latest-Ensures key booking result latest none e = pure-Ensures tt (λ w p. p.0)
  refund_latest-Ensures key booking result latest (some (payment, intent)) e =
      let sum = capped result.refundable_amount payment in
      let (found, paid) = refundable_lem latest (payment, intent) e in
      let due =
        λ (w : World (A × S)) (p : get_latest_for_booking booking.id w.session.working ≡ latest).
          let d : IsPaid booking payment w.session.working = record {
            latest = p ∙ found;
            paid = paid;
          } in
          d in
      if-Ensures (leb_ℤ sum (pos 0))
        (modify (refund_outcome airline provider env payment booking none (pos 0)))
        (attempt_refund airline provider env key payment booking intent sum)
        (λ _. record {
          run = λ w p.
              (refund_outcome-Ensures airline provider exact env d0 payment booking none (pos 0) (
                  nothing_fits payment (
                    find_elim IsWithin (λ q. q.booking_id == booking.id) w.session.working.payments
                      p.0.0.0.1.1 (p.1 ∙ found)))).run
                w (p.0, due w p.1);
        })
        (λ _.
          weaken
            (attempt_refund-Ensures airline provider exact env d0 key payment booking intent sum
              (capped_fits result.refundable_amount payment))
            (λ w p. (p.0, due w p.1)) (λ a w q. q) (λ e w q. q))

  refund_if_paid-Ensures :
      (key : String) (booking : Booking) (result : CancellationResult)
      → Ensures
          (Closed booking)
          (refund_if_paid airline provider env key booking result)
          (λ _. Closed booking)
          (λ _. Before)
  refund_if_paid-Ensures key booking result =
      let find_latest = query (get_latest_for_booking booking.id) in
      if-Ensures (booking.payment_status == "PAID")
        (find_latest >>= refund_found airline provider env key booking result) (pure tt)
        (λ _.
          bind-Ensures find_latest (refund_found airline provider env key booking result)
            (λ latest w.
              Closed booking w × (get_latest_for_booking booking.id w.session.working ≡ latest))
            (record { run = λ w p. (p, refl) })
            (λ latest. refund_latest-Ensures key booking result latest (refundable latest) refl))
        (λ _. pure-Ensures tt (λ w p. p))

  -- What a call that returns has achieved.
  abbrev Done : Booking → World (A × S) → Type 0
  Done booking w = IsBalanced w × All (IsCancelled booking.id) w.session.committed.bookings

  close_booking-Ensures :
      (key : String) (booking : Booking) (result : CancellationResult)
      → Ensures Before
          (close_booking airline provider env key booking result)
          (λ _. Done booking)
          (λ _. Before)
  unfolding update_booking commit record_audit_event
  close_booking-Ensures key booking result =
      let rest = refund_if_paid airline provider env key booking result in
      let report = report_cancelled airline provider env key booking result in
      bind-Ensures (modify (update_booking booking.id (set_status "CANCELLED")))
        (λ _. rest >> report) (λ _. Closed booking)
        (record {
          run = λ w ((sound, within), same).
              let shown =
                All-update_rows (ShowsOpen w.session.working.payments) booking.id
                  (set_status "CANCELLED") w.session.working.bookings (λ b h. h) sound.1.shown in
              (
                (((sound.0, record { settled = sound.1.settled; shown = shown }), within), same),
                set_status-IsCancelled booking.id w.session.working.bookings,
              );
        })
        (λ _.
          bind-Ensures rest (λ _. report) (λ _. Closed booking)
            (refund_if_paid-Ensures key booking result)
            (λ _. record { run = λ w p. (((p.0.0.0.1, p.0.0.0.1), (p.0.0.1.1, p.0.0.1.1)), p.1) }))

  cancel_with_airline-Ensures :
      (key : String) (booking : Booking)
      → Ensures Before
          (cancel_with_airline airline provider env key booking)
          (λ _. Done booking)
          (λ _. Before)
  cancel_with_airline-Ensures key booking =
      let call = on_airline (airline.cancel_booking booking.provider_booking_reference key) in
      bind-Ensures (call_provider call) (close_booking airline provider env key booking)
        (λ _. Before) (call_provider-Ensures call (λ a w s p. p) (λ e w s p. p))
        (close_booking-Ensures key booking)

  module _ (request : BookingCancelRequest) (d1 : Db) (s0 : IdempotencyStore) where
    cancel_once-Ensures :
        (booking : Booking) (cached : Option StoredResult)
        → get_by_pnr request.pnr d1 ≡ some booking
        → cached ≡ lookup request.idempotency_key s0
        → Ensures Before
            (cancel_once airline provider env request.idempotency_key booking cached)
            (Cancels request d1 s0)
            (λ _. Before)
    unfolding rollback
    cancel_once-Ensures booking cached found seen =
        let key = request.idempotency_key in
        let again : Action (World (A × S)) (Booking × Bool) = pure (booking, false) in
        let go = cancel_with_airline airline provider env key booking in
        if-Ensures (is_completed cached) again (or_undo key go)
          (λ completed.
            pure-Ensures (booking, false)
              (λ w p. (p.0, λ _ fresh. absurd (cc (fresh, completed, seen)))))
          (λ _.
            or_undo-Ensures key go (λ _. Before)
              (weaken (cancel_with_airline-Ensures key booking) (λ w p. p)
                (λ a w q. (
                  q.0,
                  λ _ _ b other.
                      subst (λ (x : Booking). All (IsCancelled x.id) w.session.committed.bookings)
                        (some-injective _ _ (sym found ∙ other)) q.1,
                ))
                (λ e w q. q))
              (λ e w p. (((p.0.0.0, p.0.0.0), (p.0.1.0, p.0.1.0)), p.1)))

    abbrev Start : World (A × S) → Type 0
    Start w = Before w × ((w.session.working ≡ d1) × (w.idempotency ≡ s0))

    cancel_found-Ensures :
        (booking : Booking)
        → Ensures
            (λ w. Start w × (get_by_pnr request.pnr w.session.working ≡ some booking))
            (cancel_found airline provider env request booking)
            (Cancels request d1 s0)
            (λ _. Before)
    cancel_found-Ensures booking =
        let key = request.idempotency_key in
        let go = cancel_once airline provider env key booking in
        if-Ensures (booking.status == "CANCELLED") (pure (booking, true))
          (begin_key key env.now >>= go)
          (λ _. pure-Ensures (booking, true) (λ w p. (p.0.0.0, λ no. absurd (cc no))))
          (λ _.
            bind-Ensures (begin_key key env.now) go
              (λ cached w.
                Before w × ((get_by_pnr request.pnr d1 ≡ some booking) × (cached ≡ lookup key s0)))
              (record {
                run = λ w ((before, (same_db, same_store)), found). (
                  before,
                  (
                    subst (λ d. get_by_pnr request.pnr d ≡ some booking) same_db found,
                    begin-lookup key env.now w.idempotency ∙ ap (lookup key) same_store,
                  ),
                );
              })
              (λ cached. record {
                run = λ w p. (cancel_once-Ensures booking cached p.1.0 p.1.1).run w p.0;
              }))

    cancel-Ensures :
        Ensures Start (cancel airline provider env request) (Cancels request d1 s0) (λ _. Before)
    unfolding cancel
    cancel-Ensures =
        let unconfirmed = validation_failed_error "CONFIRMATION_REQUIRED" in
        bind-Ensures (raise_if (not request.customer_confirmed) unconfirmed)
          (λ _. find_booking request.pnr >>= cancel_found airline provider env request) (λ _. Start)
          (guard-Ensures (not request.customer_confirmed) unconfirmed (λ w p. p.0))
          (λ _.
            bind-Ensures (find_booking request.pnr) (cancel_found airline provider env request)
              (λ booking w. Start w × (get_by_pnr request.pnr w.session.working ≡ some booking))
              (find_booking-Ensures request.pnr (λ e w p. p.0)) cancel_found-Ensures)

fresh_result :
    (request : BookingCancelRequest) (d1 : Db) (s0 : IdempotencyStore) (booking : Booking)
    (r : Booking × Bool) (committed : Db) (flag : Bool)
    → r.1 ≡ flag
    → (r.1 ≡ false → All (IsCancelled booking.id) committed.bookings)
    → (r.1 ≡ true) ⊎ All (IsCancelled booking.id) committed.bookings
fresh_result request d1 s0 booking r committed true e h = inl e
fresh_result request d1 s0 booking r committed false e h = inr (h e)

-- The provider refunds what it is asked to refund, and the books are right before the call. The key
-- of the request is not that of a completed one, and the PNR is that of the booking. Then the books
-- are right after the call. If it returns, it says that the booking was cancelled before, or the
-- booking is committed as cancelled; if it raises, nothing has been committed.
pub cancel-After :
    {A S : Type 0} (airline : AirlineProvider A) (provider : PaymentProvider S) (env : Env)
    (request : BookingCancelRequest) (booking : Booking) (w : World (A × S))
    → RefundsExactly provider
    → IsBalanced w
    → is_completed (lookup request.idempotency_key w.idempotency) ≡ false
    → get_by_pnr request.pnr w.session.working ≡ some booking
    → After
        (λ r w'.
          IsBalanced w'
          × ((r.1 ≡ true) ⊎ All (IsCancelled booking.id) w'.session.committed.bookings))
        (λ _ w'. IsBalanced w' × (w'.session.committed ≡ w.session.committed))
        (cancel airline provider env request w)
cancel-After airline provider env request booking w exact b fresh found =
    (weaken
        (cancel-Ensures airline provider exact env w.session.committed request w.session.working
          w.idempotency)
        (λ v p. p)
        (λ r v q. (
          q.0,
          fresh_result request w.session.working w.idempotency booking r v.session.committed r.1
              refl (λ now. q.1 now fresh booking found),
        ))
        (λ e v q. q)).run
      w ((b, refl), (refl, refl))
