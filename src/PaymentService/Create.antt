-- ===== src/PaymentService/Create.antt =====
-- `PaymentService.create_payment_session`, and the status lookup beside it.
pub mod Consistent
pub mod Atomic
use vapivoiceassistant.Prelude.{
  ℕ, String, Bool, true, false, not, Option, none, some, List, [], ◌∷◌, ◌++◌, ◌==◌, contains,
  is_some, if◌then◌else◌,
}
use vapivoiceassistant.Prelude.Dict.{Dict}
use vapivoiceassistant.Errors.{
  Result, ok, err, Action, pure, raise, gets, or_raise, not_found_error, validation_failed_error,
  conflict_error,
}
use vapivoiceassistant.Models.{Booking, Payment, AuditLog, MetaValue, text, amount}
use vapivoiceassistant.StateMachine.{booking_payment_statuses_blocking_new_session}
use vapivoiceassistant.Database.{
  Db, Session, get_by_pnr, get_open_for_booking, get_latest_for_booking, add_payment,
  update_booking, record_audit_event, set_payment_status,
}
use vapivoiceassistant.PaymentProvider.{PaymentProvider, CheckoutSession}
use vapivoiceassistant.Services.{
  World, Env, audit, ◌>>=◌, ◌>>◌, raise_if, find_booking, query, modify, try_modify, commit_session,
  begin_key, complete_key, call_provider, or_undo, or_else, replay_payment,
}

pub record PaymentSessionCreateRequest : Type 0 where
  pub pnr : String
  pub idempotency_key : String
  pub customer_confirmed : Bool

-- What a notifier writes to the audit log when it sends a payment link, by text message too or not.
-- It never raises.
abbrev pub Notifier : Type 0
Notifier = Booking → Payment → Bool → List AuditLog

unfoldable pub new_payment :
    String → Env → PaymentSessionCreateRequest → Booking → CheckoutSession → Payment
new_payment provider_name env request booking session = record {
  id = env.new_id;
  booking_id = booking.id;
  customer_id = booking.customer_id;
  provider_name = provider_name;
  provider_session_id = some session.provider_session_id;
  provider_payment_intent_id = session.payment_intent_id;
  status = "PENDING";
  amount = booking.total_price;
  currency = booking.currency;
  idempotency_key = request.idempotency_key;
  checkout_url = some session.checkout_url;
  expires_at = some session.expires_at;
  completed_at = none;
  failure_code = none;
  failure_message = none;
  provider_refund_id = none;
  refunded_amount = none;
  refund_status = none;
  refunded_at = none;
  refund_reason = none;
}

abbrev pub session_created : String → Env → Booking → Payment → AuditLog
session_created provider_name env booking payment =
    audit env "payment.session_created" "payment" payment.id (
      ("pnr", text booking.pnr)
      ∷ ("amount", amount booking.total_price)
      ∷ ("currency", text booking.currency)
      ∷ ("provider", text provider_name)
      ∷ [])

module _ {S : Type 0} (provider : PaymentProvider S) (notifier : Option Notifier) (env : Env) where
  abbrev pub send_payment_link : Booking → Payment → Action (World S) (Unit {0})
  send_payment_link booking payment = elim notifier [
    | none ↦ pure tt
    | some send ↦ do
      modify (λ d. record d {
        audit_logs = send booking payment (is_some env.call_id) ++ d.audit_logs;
      })
      commit_session
  ]

  -- The new row, with what goes with it in one transaction.
  unfoldable pub book_payment : Booking → Payment → Db → Result Db
  book_payment booking payment d = elim (add_payment payment d) [
    | err e ↦ err e
    | ok d' ↦ ok (
        record_audit_event (session_created provider.name env booking payment)
          (update_booking booking.id (set_payment_status "PENDING") d'))
  ]

  -- The part of the `try` after the new row is written.
  abbrev pub confirm_payment :
      PaymentSessionCreateRequest → Booking → Payment → Action (World S) Payment
  confirm_payment request booking payment = do
    commit_session
    complete_key request.idempotency_key (("payment_id", payment.id) ∷ []) env.now
    send_payment_link (set_payment_status "PENDING" booking) payment
    pure payment

  -- The part of the `try` after the provider's answer.
  abbrev pub store_payment :
      PaymentSessionCreateRequest → Booking → CheckoutSession → Action (World S) Payment
  store_payment request booking session = do
    let payment = new_payment provider.name env request booking session
    try_modify (book_payment booking payment)
    confirm_payment request booking payment

  -- The body of the `try`.
  unfoldable pub open_session : PaymentSessionCreateRequest → Booking → Action (World S) Payment
  open_session request booking = do
    session ← call_provider (
        provider.create_checkout_session booking.pnr booking.total_price booking.currency
          request.idempotency_key)
    store_payment request booking session

  -- A booking that is paid for refuses; one with a payment in flight gives that payment.
  unfoldable pub reuse_open : Booking → Action (World S) (Option Payment)
  reuse_open booking =
      if contains booking.payment_status booking_payment_statuses_blocking_new_session
      then (if booking.payment_status == "PAID"
          then raise (conflict_error "PAYMENT_ALREADY_COMPLETED")
          else if booking.payment_status == "REFUNDED"
          then raise (conflict_error "PAYMENT_ALREADY_COMPLETED")
          else query (get_open_for_booking booking.id))
      else pure none

  unfoldable pub start_session : PaymentSessionCreateRequest → Booking → Action (World S) Payment
  unfolding open_session replay_payment
  start_session request booking = do
    cached ← begin_key request.idempotency_key env.now
    existing ← replay_payment "PAYMENT_SESSION_IN_PROGRESS" cached
    or_else existing (or_undo request.idempotency_key (open_session request booking))

  -- The part of the method after the booking is found.
  abbrev pub pay_for : PaymentSessionCreateRequest → Booking → Action (World S) Payment
  pay_for request booking = do
    raise_if (booking.status == "CANCELLED") (validation_failed_error "BOOKING_NOT_PAYABLE")
    existing_open ← reuse_open booking
    or_else existing_open (start_session request booking)

  unfoldable pub create_payment_session : PaymentSessionCreateRequest → Action (World S) Payment
  create_payment_session request = do
    raise_if (not request.customer_confirmed) (validation_failed_error "CONFIRMATION_REQUIRED")
    booking ← find_booking request.pnr
    pay_for request booking

unfoldable pub get_payment_status :
    {S : Type 0} → String → Action (World S) (Booking × Option Payment)
get_payment_status pnr = do
  booking ← find_booking pnr
  payment ← query (get_latest_for_booking booking.id)
  pure (booking, payment)
