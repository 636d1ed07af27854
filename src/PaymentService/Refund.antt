-- ===== src/PaymentService/Refund.antt =====
-- `PaymentService.refund_payment` and `apply_refund_outcome` of
-- apps/api/app/services/payment_service.py.
pub mod Totals
pub mod Balanced
use vapivoiceassistant.Prelude.{
  ℕ, String, Bool, true, false, not, ◌&&◌, ◌||◌, Option, none, some, List, [], ◌∷◌, ◌==◌,
  truthy_text, if◌then◌else◌,
}
use vapivoiceassistant.Prelude.Int.{ℤ, pos, ◌+ℤ◌, ◌-ℤ◌, leb_ℤ, ltb_ℤ}
use vapivoiceassistant.Prelude.Dict.{Dict}
use vapivoiceassistant.Errors.{
  Action, pure, raise, or_raise, validation_failed_error, conflict_error, payment_provider_error,
}
use vapivoiceassistant.Models.{Booking, Payment, MetaValue, text, amount}
use vapivoiceassistant.Database.{
  Db, get_latest_for_booking, update_booking, update_payment, set_payment_status,
  record_audit_event,
}
use vapivoiceassistant.PaymentProvider.{
  PaymentProvider, RefundResult, RefundStatus, pending, requires_action, succeeded, failed,
  canceled, refund_status_value,
}
use vapivoiceassistant.Services.{
  World, Env, audit, ◌>>=◌, ◌>>◌, raise_if, query, modify, commit_session, begin_key, complete_key,
  fail_key, call_provider, or_undo, or_else, find_booking, replay_payment,
}

pub record RefundCreateRequest : Type 0 where
  pub pnr : String
  pub idempotency_key : String
  pub confirmed : Bool
  pub amount : Option ℤ
  pub reason : Option String

-- `status in _TERMINAL_FAILED_REFUND_STATUSES`
abbrev pub is_failed_refund : RefundStatus → Bool
is_failed_refund pending = false
is_failed_refund requires_action = false
is_failed_refund succeeded = false
is_failed_refund failed = true
is_failed_refund canceled = true

-- `status == RefundStatus.SUCCEEDED`
abbrev pub is_succeeded : RefundStatus → Bool
is_succeeded pending = false
is_succeeded requires_action = false
is_succeeded succeeded = true
is_succeeded failed = false
is_succeeded canceled = false

-- `payment.refunded_amount or Decimal("0")`
abbrev pub already_refunded : Payment → ℤ
already_refunded payment = elim (payment.refunded_amount) [ none ↦ pos 0 | some a ↦ a ]

-- Without a result nothing was sent to the provider.
unfoldable pub refunded : ℕ → Option RefundResult → ℤ → Option String → Payment → Payment
refunded now none sum reason payment = record payment {
  refund_reason = reason;
  refunded_amount = some (already_refunded payment +ℤ sum);
  refund_status = some (refund_status_value succeeded);
  refunded_at = some now;
}
refunded now (some result) sum reason payment = record payment {
  refund_reason = reason;
  provider_refund_id = some result.provider_refund_id;
  refunded_amount = some (already_refunded payment +ℤ result.amount);
  refund_status = some (refund_status_value result.status);
  refunded_at = if is_succeeded result.status then some now else payment.refunded_at;
}

abbrev refund_action : Option RefundResult → String
refund_action none = "payment.refunded"
refund_action (some result) =
    if is_succeeded result.status
    then "payment.refunded"
    else if is_failed_refund result.status
    then "payment.refund_failed"
    else "payment.refund_pending"

abbrev refund_metadata : Booking → Payment → Option RefundResult → ℤ → Dict MetaValue
refund_metadata booking payment none sum =
    ("pnr", text booking.pnr)
    ∷ ("amount", amount sum)
    ∷ ("currency", text payment.currency)
    ∷ ("note", text "cancellation fee absorbed the full amount; no provider refund was issued")
    ∷ []
refund_metadata booking payment (some result) sum =
    ("pnr", text booking.pnr)
    ∷ ("amount", amount result.amount)
    ∷ ("currency", text result.currency)
    ∷ ("provider_refund_id", text result.provider_refund_id)
    ∷ ("status", text (refund_status_value result.status))
    ∷ []

-- `provider_result is None or provider_result.status == RefundStatus.SUCCEEDED`
abbrev pub settles : Option RefundResult → Bool
settles none = true
settles (some result) = is_succeeded result.status

-- The rows of the payment and of its booking, and one audit row.
unfoldable pub apply_refund_outcome :
    Env → Payment → Booking → Option RefundResult → ℤ → Option String → Bool → Db → Db
apply_refund_outcome env payment booking result sum reason mark_booking_refunded d =
    let paid = update_payment payment.id (refunded env.now result sum reason) d in
    let closed =
      if mark_booking_refunded && settles result
      then update_booking booking.id (set_payment_status "REFUNDED") paid
      else paid in
    record_audit_event
      (audit env (refund_action result) "payment" payment.id
        (refund_metadata booking payment result sum))
      closed

abbrev pub with_intent : Payment → Option String → Option (Payment × String)
with_intent payment none = none
with_intent payment (some intent) = some (payment, intent)

-- The latest payment of a booking, if it went through and the provider can name it.
abbrev pub refundable : Option Payment → Option (Payment × String)
refundable none = none
refundable (some payment) =
    if payment.status == "SUCCEEDED"
    then with_intent payment (truthy_text payment.provider_payment_intent_id)
    else none

abbrev pub remaining : Payment → ℤ
remaining payment = payment.amount -ℤ already_refunded payment

abbrev pub requested : Option ℤ → Payment → ℤ
requested none payment = remaining payment
requested (some a) payment = a

-- `refund_amount <= 0 or refund_amount > remaining`
abbrev pub is_invalid_refund : ℤ → Payment → Bool
is_invalid_refund sum payment = leb_ℤ sum (pos 0) || ltb_ℤ (remaining payment) sum

-- A staff member asks, so there is no call and no request id.
abbrev pub staff_env : Env → Env
staff_env env = record env { call_id = none; request_id = none }

module _ {S : Type 0} (provider : PaymentProvider S) (env : Env) where
  -- What the provider said is committed by now.
  abbrev pub conclude_refund :
      RefundCreateRequest → Payment → ℤ → RefundResult → Bool → Action (World S) Payment
  conclude_refund request payment sum result true = do
    fail_key request.idempotency_key
    raise (payment_provider_error "PAYMENT_REFUND_FAILED")
  conclude_refund request payment sum result false = do
    complete_key request.idempotency_key (("payment_id", payment.id) ∷ []) env.now
    pure (refunded env.now (some result) sum request.reason payment)

  abbrev pub outcome_db : RefundCreateRequest → Booking → Payment → ℤ → RefundResult → Db → Db
  outcome_db request booking payment sum result =
      apply_refund_outcome (staff_env env) payment booking (some result) sum request.reason
        (leb_ℤ payment.amount (already_refunded payment +ℤ sum))

  abbrev pub settle_refund :
      RefundCreateRequest → Booking → Payment → ℤ → RefundResult → Action (World S) Payment
  settle_refund request booking payment sum result = do
    modify (outcome_db request booking payment sum result)
    commit_session
    conclude_refund request payment sum result (is_failed_refund result.status)

  abbrev pub send_refund :
      RefundCreateRequest → Booking → Payment → String → ℤ → Action (World S) Payment
  send_refund request booking payment intent sum = do
    result ← or_undo request.idempotency_key (
        call_provider (
          provider.refund_payment intent sum payment.currency request.idempotency_key
            request.reason))
    settle_refund request booking payment sum result

  -- The part of the method after the payment is found.
  abbrev pub refund_found :
      RefundCreateRequest → Booking → Payment × String → Action (World S) Payment
  refund_found request booking (payment, intent) = do
    let sum = requested request.amount payment
    raise_if (is_invalid_refund sum payment) (validation_failed_error "INVALID_REFUND_AMOUNT")
    cached ← begin_key request.idempotency_key env.now
    existing ← replay_payment "REFUND_IN_PROGRESS" cached
    or_else existing (send_refund request booking payment intent sum)

  unfoldable pub refund_payment : RefundCreateRequest → Action (World S) Payment
  refund_payment request = do
    raise_if (not request.confirmed) (validation_failed_error "CONFIRMATION_REQUIRED")
    booking ← find_booking request.pnr
    raise_if (booking.payment_status == "REFUNDED") (conflict_error "PAYMENT_ALREADY_REFUNDED")
    latest ← query (get_latest_for_booking booking.id)
    payment ← or_raise (refundable latest) (validation_failed_error "PAYMENT_NOT_REFUNDABLE")
    refund_found request booking payment
