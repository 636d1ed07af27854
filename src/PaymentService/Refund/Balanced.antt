-- ===== src/PaymentService/Refund/Balanced.antt =====
-- `refund_payment` keeps the books right: on every path, failed refunds included, no payment is
-- refunded by more than its amount.
use vapivoiceassistant.Prelude.{
  String, ◌≡◌, refl, sym, ◌∙◌, subst, Bool, true, false, not, some, ◌==◌, All,
}
use vapivoiceassistant.Prelude.Int.{ℤ, ◌+ℤ◌, ◌≤ℤ◌, leb_ℤ}
use vapivoiceassistant.Errors.{or_raise, validation_failed_error, conflict_error}
use vapivoiceassistant.Models.{Booking, Payment}
use vapivoiceassistant.Database.{commit, rollback, get_latest_for_booking}
use vapivoiceassistant.PaymentProvider.{PaymentProvider, RefundResult}
use vapivoiceassistant.Services.{
  World, Env, ◌>>=◌, ◌>>◌, raise_if, query, modify, commit_session, begin_key, call_provider,
  or_undo, or_else, find_booking, replay_payment, IsSound,
}
use vapivoiceassistant.Services.Outcomes.{
  After, Ensures, bind-Ensures, answer-Ensures, or_undo-Ensures, or_else-Ensures, or_raise-Ensures,
  raise_if-Ensures, guard-Ensures, find_booking-Ensures, replay_payment-Ensures, weaken,
}
use vapivoiceassistant.PaymentService.Refund.{
  RefundCreateRequest, already_refunded, refundable, staff_env, requested, is_invalid_refund,
  is_failed_refund, conclude_refund, outcome_db, settle_refund, send_refund, refund_found,
  refund_payment,
}
use vapivoiceassistant.PaymentService.Refund.Totals.{
  IsWithin, RefundsExactly, IsPaid, valid_refund, refundable_lem, apply_refund_outcome-IsConsistent,
  apply_refund_outcome-IsWithin,
}

-- The books are right, committed and in the open transaction.
abbrev pub IsBalanced : {S : Type 0} → World S → Type 0
IsBalanced w =
    IsSound w
    × (All IsWithin w.session.committed.payments × All IsWithin w.session.working.payments)

module _ {S : Type 0} (provider : PaymentProvider S) (exact : RefundsExactly provider) (env : Env)
    (request : RefundCreateRequest) where
  conclude_refund-Ensures :
      (payment : Payment) (sum : ℤ) (result : RefundResult) (failed : Bool)
      → Ensures IsBalanced
          (conclude_refund provider env request payment sum result failed)
          (λ _. IsBalanced)
          (λ _. IsBalanced)
  conclude_refund-Ensures payment sum result true = record { run = λ w p. p }
  conclude_refund-Ensures payment sum result false = record { run = λ w p. p }

  module _ (booking : Booking) (payment : Payment) (intent : String) (sum : ℤ) where
    abbrev Due : World S → Type 0
    Due w =
        IsBalanced w
        × (IsPaid booking payment w.session.working × (is_invalid_refund sum payment ≡ false))

    settle_refund-Ensures :
        (result : RefundResult)
        → Ensures
            (λ w. Due w × (result.amount ≡ sum))
            (settle_refund provider env request booking payment sum result)
            (λ _. IsBalanced)
            (λ _. IsBalanced)
    unfolding commit
    settle_refund-Ensures result =
        let failed = is_failed_refund result.status in
        let mark = leb_ℤ payment.amount (already_refunded payment +ℤ sum) in
        bind-Ensures
          (modify (outcome_db provider env request booking payment sum result) >> commit_session)
          (λ _. conclude_refund provider env request payment sum result failed) (λ _. IsBalanced)
          (record {
            run = λ w ((b, (due, valid)), same).
                let consistent =
                  apply_refund_outcome-IsConsistent (staff_env env) booking payment sum
                    (some result) request.reason mark w.session.working b.0.1 due in
                let within =
                  apply_refund_outcome-IsWithin (staff_env env) booking payment sum (some result)
                    request.reason mark w.session.working b.0.1 due
                    (subst (λ a. already_refunded payment +ℤ a ≤ℤ payment.amount) (sym same)
                      (valid_refund sum payment valid))
                    b.1.1 in
                ((consistent, consistent), (within, within));
          })
          (λ _. conclude_refund-Ensures payment sum result failed)

    send_refund-Ensures :
        Ensures Due
          (send_refund provider env request booking payment intent sum)
          (λ _. IsBalanced)
          (λ _. IsBalanced)
    unfolding rollback
    send_refund-Ensures =
        let call =
          provider.refund_payment intent sum payment.currency request.idempotency_key
            request.reason in
        bind-Ensures (or_undo request.idempotency_key (call_provider call))
          (settle_refund provider env request booking payment sum)
          (λ result w. Due w × (result.amount ≡ sum))
          (or_undo-Ensures request.idempotency_key (call_provider call) (λ _. IsBalanced)
            (answer-Ensures call
              (λ result w s t e p. (
                p,
                exact intent sum payment.currency request.idempotency_key request.reason s result e,
              ))
              (λ e w t p. p.0))
            (λ e w b. ((b.0.0, b.0.0), (b.1.0, b.1.0))))
          settle_refund-Ensures

  -- What is known once the payment has been looked up.
  abbrev Found : Booking → Payment → World S → Type 0
  Found booking payment w =
      IsBalanced w
      × ((get_latest_for_booking booking.id w.session.working ≡ some payment)
          × ((payment.status == "SUCCEEDED") ≡ true))

  refund_found-Ensures :
      (booking : Booking) (x : Payment × String)
      → Ensures
          (Found booking x.0)
          (refund_found provider env request booking x)
          (λ _. IsBalanced)
          (λ _. IsBalanced)
  refund_found-Ensures booking (payment, intent) =
      let sum = requested request.amount payment in
      let invalid = validation_failed_error "INVALID_REFUND_AMOUNT" in
      let send = send_refund provider env request booking payment intent sum in
      bind-Ensures (raise_if (is_invalid_refund sum payment) invalid)
        (λ _. begin_key request.idempotency_key env.now >>= λ cached.
          replay_payment "REFUND_IN_PROGRESS" cached >>= λ existing. or_else existing send)
        (λ _. Due booking payment intent sum)
        (weaken (raise_if-Ensures (is_invalid_refund sum payment) invalid (λ w _ p. p.0)) (λ w p. p)
          (λ a w q. (q.1.0, (record { latest = q.1.1.0; paid = q.1.1.1 }, q.0))) (λ e w q. q))
        (λ _.
          bind-Ensures (begin_key request.idempotency_key env.now)
            (λ cached.
              replay_payment "REFUND_IN_PROGRESS" cached >>= λ existing. or_else existing send)
            (λ _. Due booking payment intent sum) (record { run = λ w p. p })
            (λ cached.
              bind-Ensures (replay_payment "REFUND_IN_PROGRESS" cached)
                (λ existing. or_else existing send) (λ _. Due booking payment intent sum)
                (replay_payment-Ensures (λ e w p. p.0) "REFUND_IN_PROGRESS" cached)
                (λ existing.
                  or_else-Ensures existing send (λ a _ w p. p.0)
                    (λ _. send_refund-Ensures booking payment intent sum))))

  refund_latest-Ensures :
      (booking : Booking)
      → Ensures IsBalanced
          (query (get_latest_for_booking booking.id) >>= λ latest.
            or_raise (refundable latest) (validation_failed_error "PAYMENT_NOT_REFUNDABLE")
            >>= refund_found provider env request booking)
          (λ _. IsBalanced)
          (λ _. IsBalanced)
  refund_latest-Ensures booking =
      let none_paid = validation_failed_error "PAYMENT_NOT_REFUNDABLE" in
      let go = refund_found provider env request booking in
      bind-Ensures (query (get_latest_for_booking booking.id))
        (λ latest. or_raise (refundable latest) none_paid >>= go)
        (λ latest w. IsBalanced w × (get_latest_for_booking booking.id w.session.working ≡ latest))
        (record { run = λ w p. (p, refl) })
        (λ latest.
          bind-Ensures (or_raise (refundable latest) none_paid) go (λ x. Found booking x.0)
            (weaken (or_raise-Ensures (refundable latest) none_paid (λ w _ p. p.0)) (λ w p. p)
              (λ x w q.
                let (same, paid) = refundable_lem latest x q.0 in (q.1.0, (q.1.1 ∙ same, paid)))
              (λ e w q. q))
            (refund_found-Ensures booking))

  refund_payment-Ensures :
      Ensures IsBalanced (refund_payment provider env request) (λ _. IsBalanced) (λ _. IsBalanced)
  unfolding refund_payment
  refund_payment-Ensures =
      let unconfirmed = validation_failed_error "CONFIRMATION_REQUIRED" in
      let twice = conflict_error "PAYMENT_ALREADY_REFUNDED" in
      let latest = λ (booking : Booking). query (get_latest_for_booking booking.id) >>= λ found.
      or_raise (refundable found) (validation_failed_error "PAYMENT_NOT_REFUNDABLE")
      >>= refund_found provider env request booking in
      let go = λ (booking : Booking).
        raise_if (booking.payment_status == "REFUNDED") twice >> latest booking in
      bind-Ensures (raise_if (not request.confirmed) unconfirmed)
        (λ _. find_booking request.pnr >>= go) (λ _. IsBalanced)
        (guard-Ensures (not request.confirmed) unconfirmed (λ w p. p))
        (λ _.
          bind-Ensures (find_booking request.pnr) go (λ _. IsBalanced)
            (weaken (find_booking-Ensures request.pnr (λ e w p. p)) (λ w p. p) (λ a w q. q.0)
              (λ e w q. q))
            (λ booking.
              bind-Ensures (raise_if (booking.payment_status == "REFUNDED") twice)
                (λ _. latest booking) (λ _. IsBalanced)
                (guard-Ensures (booking.payment_status == "REFUNDED") twice (λ w p. p))
                (λ _. refund_latest-Ensures booking)))

-- If the provider refunds what it is asked to refund, then a call from a state where no payment is
-- refunded by more than its amount ends in such a state, and in a consistent one, whether it returns
-- or raises.
pub refund_payment-After :
    {S : Type 0} (provider : PaymentProvider S) (env : Env) (request : RefundCreateRequest)
    (w : World S)
    → RefundsExactly provider
    → IsBalanced w
    → After (λ _. IsBalanced) (λ _. IsBalanced) (refund_payment provider env request w)
refund_payment-After provider env request w exact b =
    (refund_payment-Ensures provider exact env request).run w b
