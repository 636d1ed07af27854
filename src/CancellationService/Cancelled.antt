-- ===== src/CancellationService/Cancelled.antt =====
-- What a cancellation leaves behind: the booking is cancelled, and the books are right.
use vapivoiceassistant.Prelude.{
  String, ◌≡◌, refl, sym, subst, Bool, true, false, Option, some, List, [], ◌∷◌, ◌==◌, ◌&&◌, All,
  join, if_elim, if◌then◌else◌,
}
use vapivoiceassistant.Prelude.Int.{ℤ, pos, ◌+ℤ◌, ◌≤ℤ◌, int_laws}
use vapivoiceassistant.Errors.{Result, ok, err, payment_provider_error}
use vapivoiceassistant.Models.{Booking, Payment}
use vapivoiceassistant.Database.{
  Db, update_rows, update_booking, update_payment, set_payment_status, record_audit_event,
}
use vapivoiceassistant.PaymentProvider.{PaymentProvider, RefundResult}
use vapivoiceassistant.AirlineProvider.{AirlineProvider}
use vapivoiceassistant.Services.{World, Env, modify}
use vapivoiceassistant.Services.Outcomes.{Ensures}
use vapivoiceassistant.PaymentService.Refund.{apply_refund_outcome, already_refunded, settles}
use vapivoiceassistant.PaymentService.Refund.Totals.{
  IsWithin, RefundsExactly, IsPaid, outcome_sum, apply_refund_outcome-IsConsistent,
  apply_refund_outcome-IsWithin,
}
use vapivoiceassistant.PaymentService.Refund.Balanced.{IsBalanced}
use vapivoiceassistant.CancellationService.{
  set_status, capped, refund_outcome, after_refund, attempt_refund,
}

-- An update that keeps a property of rows keeps it for all rows.
pub All-update_rows :
    (P : Booking → Type 0) (id : String) (f : Booking → Booking) (bs : List Booking)
    → ((b : Booking) → P b → P (f b))
    → All P bs
    → All P (update_rows id f bs)
unfolding update_rows
All-update_rows P id f [] h k = tt
All-update_rows P id f (b ∷ bs) h k =
    (if_elim P (b.id == id) (h b k.0) k.0, All-update_rows P id f bs h k.1)

-- The rows with the id are cancelled.
abbrev pub IsCancelled : String → Booking → Type 0
IsCancelled id b = (b.id == id) ≡ true → b.status ≡ "CANCELLED"

IsCancelled-row :
    (id : String) (b : Booking) (own : Bool)
    → (b.id == id) ≡ own
    → IsCancelled id (if own then set_status "CANCELLED" b else b)
IsCancelled-row id b true e k = refl
IsCancelled-row id b false e k = absurd (cc (k, e))

pub set_status-IsCancelled :
    (id : String) (bs : List Booking)
    → All (IsCancelled id) (update_rows id (set_status "CANCELLED") bs)
unfolding update_rows
set_status-IsCancelled id [] = tt
set_status-IsCancelled id (b ∷ bs) =
    (IsCancelled-row id b (b.id == id) refl, set_status-IsCancelled id bs)

apply_refund_outcome-IsCancelled :
    (env : Env) (payment : Payment) (booking : Booking) (result : Option RefundResult) (sum : ℤ)
    (reason : Option String) (mark : Bool) (id : String) (d : Db)
    → All (IsCancelled id) d.bookings
    → All
        (IsCancelled id)
        (apply_refund_outcome env payment booking result sum reason mark d).bookings
unfolding apply_refund_outcome record_audit_event update_booking update_payment
apply_refund_outcome-IsCancelled env payment booking result sum reason mark id d h =
    if_elim (λ (x : Db). All (IsCancelled id) x.bookings) (mark && settles result)
      (All-update_rows (IsCancelled id) booking.id (set_payment_status "REFUNDED") d.bookings
        (λ b k. k) h)
      h

-- What is asked for is at most what is left, and nothing more than nothing fits a payment.
pub capped_fits : (sum : ℤ) (p : Payment) → already_refunded p +ℤ capped sum p ≤ℤ p.amount
capped_fits sum p = grind int_laws

pub nothing_fits : (p : Payment) → IsWithin p → already_refunded p +ℤ pos 0 ≤ℤ p.amount
nothing_fits p h = grind int_laws

module _ {A S : Type 0} (airline : AirlineProvider A) (provider : PaymentProvider S)
    (exact : RefundsExactly provider) (env : Env) (d0 : Db) where
  -- What is known of the world while the booking is being cancelled.
  abbrev Before : World (A × S) → Type 0
  Before w = IsBalanced w × (w.session.committed ≡ d0)

  abbrev Closed : Booking → World (A × S) → Type 0
  Closed booking w = Before w × All (IsCancelled booking.id) w.session.working.bookings

  pub refund_outcome-Ensures :
      (payment : Payment) (booking : Booking) (result : Option RefundResult) (sum : ℤ)
      → already_refunded payment +ℤ outcome_sum result sum ≤ℤ payment.amount
      → Ensures
          (λ w. Closed booking w × IsPaid booking payment w.session.working)
          (modify (refund_outcome airline provider env payment booking result sum))
          (λ _. Closed booking)
          (λ _. Before)
  refund_outcome-Ensures payment booking result sum fits = record {
    run = λ w ((((sound, within), same), cancelled), due).
        let reason = some "booking_cancelled" in
        (
          (
            (
              (
                sound.0,
                apply_refund_outcome-IsConsistent env booking payment sum result reason true
                    w.session.working sound.1 due,
              ),
              (
                within.0,
                apply_refund_outcome-IsWithin env booking payment sum result reason true
                    w.session.working sound.1 due fits within.1,
              ),
            ),
            same,
          ),
          apply_refund_outcome-IsCancelled env payment booking result sum reason true booking.id
              w.session.working cancelled,
        );
  }

  after_refund-Ensures :
      (payment : Payment) (booking : Booking) (sum : ℤ) (r : Result RefundResult)
      → ((result : RefundResult)
          → r ≡ ok result
          → already_refunded payment +ℤ result.amount ≤ℤ payment.amount)
      → Ensures
          (λ w. Closed booking w × IsPaid booking payment w.session.working)
          (after_refund airline provider env payment booking sum r)
          (λ _. Closed booking)
          (λ _. Before)
  unfolding record_audit_event
  after_refund-Ensures payment booking sum (ok result) fits =
      refund_outcome-Ensures payment booking (some result) sum (fits result refl)
  after_refund-Ensures payment booking sum (err (payment_provider_error c)) fits = record {
    run = λ w p. p.0;
  }
  after_refund-Ensures payment booking sum (err e) fits = record { run = λ w p. p.0.0 }

  pub attempt_refund-Ensures :
      (key : String) (payment : Payment) (booking : Booking) (intent : String) (sum : ℤ)
      → already_refunded payment +ℤ sum ≤ℤ payment.amount
      → Ensures
          (λ w. Closed booking w × IsPaid booking payment w.session.working)
          (attempt_refund airline provider env key payment booking intent sum)
          (λ _. Closed booking)
          (λ _. Before)
  attempt_refund-Ensures key payment booking intent sum fits = record {
    run = λ w p.
        let refund =
          provider.refund_payment intent sum payment.currency (join "refund_for_cancel:" key)
            (some "booking_cancelled") in
        (after_refund-Ensures payment booking sum (refund w.provider.1).0 (λ result e.
            subst (λ a. already_refunded payment +ℤ a ≤ℤ payment.amount)
              (sym (
                exact intent sum payment.currency (join "refund_for_cancel:" key)
                  (some "booking_cancelled") w.provider.1 result e))
              fits)).run
          (record w { provider = (w.provider.0, (refund w.provider.1).1) }) p;
  }
