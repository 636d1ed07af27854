-- ===== src/CancellationService.antt =====
-- `CancellationService` of apps/api/app/services/cancellation_service.py. The state of the providers
-- is a pair, the airline's and the payment provider's.
pub mod Cancelled
pub mod Atomic
use vapivoiceassistant.Prelude.{
  String, Bool, true, false, not, Option, none, some, List, [], ◌∷◌, ◌==◌, join, holds,
  if◌then◌else◌,
}
use vapivoiceassistant.Prelude.Int.{ℤ, pos, leb_ℤ, ltb_ℤ}
use vapivoiceassistant.Errors.{
  Error, Result, ok, err, Action, pure, raise, validation_failed_error, payment_provider_error,
}
use vapivoiceassistant.Models.{Booking, Payment, text, amount}
use vapivoiceassistant.Idempotency.{StoredResult}
use vapivoiceassistant.Database.{
  Db, get_latest_for_booking, get_booking_by_id, update_booking, record_audit_event,
}
use vapivoiceassistant.PaymentProvider.{PaymentProvider, RefundResult}
use vapivoiceassistant.AirlineProvider.{AirlineProvider, CancellationPolicy, CancellationResult}
use vapivoiceassistant.Services.{
  World, Env, audit, ◌>>=◌, ◌>>◌, raise_if, query, modify, commit_session, begin_key, complete_key,
  call_provider, or_undo, find_booking,
}
use vapivoiceassistant.PaymentService.Refund.{apply_refund_outcome, refundable, remaining}

-- A call of one of the two providers.
abbrev pub on_airline : {A S X : Type 0} → Action A X → Action (A × S) X
on_airline m (a, s) = let (r, a') = m a in (r, (a', s))

abbrev pub on_payments : {A S X : Type 0} → Action S X → Action (A × S) X
on_payments m (a, s) = let (r, s') = m s in (r, (a, s'))

pub record BookingCancelRequest : Type 0 where
  pub pnr : String
  pub idempotency_key : String
  pub customer_confirmed : Bool

abbrev pub set_status : String → Booking → Booking
set_status status b = record b { status = status }

-- `provider_booking_reference or ""`
abbrev or_blank : Option String → String
or_blank none = ""
or_blank (some s) = s

abbrev no_refund_left : Booking → CancellationPolicy
no_refund_left booking = record {
  provider_booking_reference = or_blank booking.provider_booking_reference;
  refundable_amount = pos 0;
  cancellation_fee = pos 0;
  non_refundable_amount = pos 0;
  currency = booking.currency;
  deadline = booking.updated_at;
  already_cancelled = true;
}

unfoldable pub get_policy :
    {A S : Type 0}
    → AirlineProvider A
    → String
    → Action (World (A × S)) (Booking × CancellationPolicy)
get_policy airline pnr = do
  booking ← find_booking pnr
  if booking.status == "CANCELLED" then pure (booking, no_refund_left booking) else do
    policy ←
        call_provider
          (on_airline (airline.get_cancellation_policy booking.provider_booking_reference))
    pure (booking, policy)

-- Never more than is left.
abbrev pub capped : ℤ → Payment → ℤ
capped sum payment = if ltb_ℤ (remaining payment) sum then remaining payment else sum

-- `cached is not None and cached.status == "completed"`
abbrev pub is_completed : Option StoredResult → Bool
is_completed none = false
is_completed (some cached) = cached.status == "completed"

module _ {A S : Type 0} (airline : AirlineProvider A) (provider : PaymentProvider S)
    (env : Env) where
  abbrev pub refund_outcome : Payment → Booking → Option RefundResult → ℤ → Db → Db
  refund_outcome payment booking result sum =
      apply_refund_outcome env payment booking result sum (some "booking_cancelled") true

  -- The message of the exception is its code here.
  abbrev pub report_failed_refund : Payment → Booking → String → Action (World (A × S)) (Unit {0})
  report_failed_refund payment booking code = modify (
      record_audit_event (
        audit env "payment.refund_failed_during_cancellation" "payment" payment.id
          (("pnr", text booking.pnr) ∷ ("error", text code) ∷ [])))

  -- `except PaymentProviderError` of the refund; other exceptions go on.
  abbrev pub after_refund :
      Payment → Booking → ℤ → Result RefundResult → Action (World (A × S)) (Unit {0})
  after_refund payment booking sum (ok result) =
      modify (refund_outcome payment booking (some result) sum)
  after_refund payment booking sum (err (payment_provider_error code)) =
      report_failed_refund payment booking code
  after_refund payment booking sum (err e) = raise e

  abbrev pub attempt_refund :
      String → Payment → Booking → String → ℤ → Action (World (A × S)) (Unit {0})
  attempt_refund key payment booking intent sum w =
      let (r, s) =
        on_payments
          (provider.refund_payment intent sum payment.currency (join "refund_for_cancel:" key)
            (some "booking_cancelled"))
          w.provider in
      after_refund payment booking sum r (record w { provider = s })

  abbrev pub refund_latest :
      String
      → Booking
      → CancellationResult
      → Option (Payment × String)
      → Action (World (A × S)) (Unit {0})
  refund_latest key booking result none = pure tt
  refund_latest key booking result (some (payment, intent)) =
      let sum = capped result.refundable_amount payment in
      if leb_ℤ sum (pos 0)
      then modify (refund_outcome payment booking none (pos 0))
      else attempt_refund key payment booking intent sum

  abbrev pub refund_found :
      String → Booking → CancellationResult → Option Payment → Action (World (A × S)) (Unit {0})
  refund_found key booking result latest = refund_latest key booking result (refundable latest)

  abbrev pub refund_if_paid :
      String → Booking → CancellationResult → Action (World (A × S)) (Unit {0})
  refund_if_paid key booking result =
      if booking.payment_status == "PAID"
      then (query (get_latest_for_booking booking.id) >>= refund_found key booking result)
      else pure tt

  -- The booking object, as its row has become.
  abbrev pub refreshed : Booking → Db → Booking
  refreshed booking d = elim (get_booking_by_id booking.id d) [ none ↦ booking | some b ↦ b ]

  abbrev pub report_cancelled :
      String → Booking → CancellationResult → Action (World (A × S)) (Booking × Bool)
  report_cancelled key booking result = do
    modify (
        record_audit_event (
          audit env "booking.cancelled" "booking" booking.pnr (
            ("refundable_amount", amount result.refundable_amount)
            ∷ ("cancellation_fee", amount result.cancellation_fee)
            ∷ [])))
    commit_session
    complete_key key (("pnr", booking.pnr) ∷ []) env.now
    closed ← query (refreshed booking)
    pure (closed, false)

  abbrev pub close_booking :
      String → Booking → CancellationResult → Action (World (A × S)) (Booking × Bool)
  close_booking key booking result = do
    modify (update_booking booking.id (set_status "CANCELLED"))
    refund_if_paid key booking result
    report_cancelled key booking result

  -- The body of the `try`.
  abbrev pub cancel_with_airline : String → Booking → Action (World (A × S)) (Booking × Bool)
  cancel_with_airline key booking = do
    result ←
        call_provider (on_airline (airline.cancel_booking booking.provider_booking_reference key))
    close_booking key booking result

  abbrev pub cancel_once :
      String → Booking → Option StoredResult → Action (World (A × S)) (Booking × Bool)
  cancel_once key booking cached =
      if is_completed cached
      then pure (booking, false)
      else or_undo key (cancel_with_airline key booking)

  abbrev pub cancel_found : BookingCancelRequest → Booking → Action (World (A × S)) (Booking × Bool)
  cancel_found request booking =
      if booking.status == "CANCELLED"
      then pure (booking, true)
      else (begin_key request.idempotency_key env.now
          >>= cancel_once request.idempotency_key booking)

  unfoldable pub cancel : BookingCancelRequest → Action (World (A × S)) (Booking × Bool)
  cancel request = do
    raise_if (not request.customer_confirmed) (validation_failed_error "CONFIRMATION_REQUIRED")
    booking ← find_booking request.pnr
    cancel_found request booking
