-- ===== src/PaymentService/Webhook.antt =====
-- `PaymentService.handle_webhook_event` of apps/api/app/services/payment_service.py.
pub mod Sound
pub mod Moved
pub mod Redelivered
use vapivoiceassistant.Prelude.{
  ℕ, String, Bool, true, false, not, Option, none, some, List, [], ◌∷◌, ◌==◌, contains, join,
  truthy_text, or_default, if◌then◌else◌,
}
use vapivoiceassistant.Prelude.Dict.{Dict, lookup}
use vapivoiceassistant.StateMachine.{
  booking_payment_status_for_session, relevant_webhook_event_types, can_transition,
  new_status_for_webhook_event,
}
use vapivoiceassistant.Errors.{
  Result, ok, err, Action, pure, raise, or_raise, key_error, attribute_error,
}
use vapivoiceassistant.Models.{Booking, Payment, AuditLog, MetaValue, text}
use vapivoiceassistant.Database.{
  Db, get_by_provider_session_id, get_booking_by_id, update_booking, update_payment,
  set_payment_status, record_audit_event,
}
use vapivoiceassistant.Idempotency.{StoredResult}
use vapivoiceassistant.PaymentProvider.{PaymentProvider, WebhookEvent}
use vapivoiceassistant.Services.{
  World, ◌>>=◌, ◌>>◌, query, modify, commit_session, begin_key, complete_key, or_undo,
}

abbrev pub dedup_key : WebhookEvent → String
dedup_key event = join "stripe_event:" event.event_id

-- `new_status.lower()`, of the statuses of a payment session.
abbrev pub lower : String → String
lower status =
    if status == "PENDING"
    then "pending"
    else if status == "PROCESSING"
    then "processing"
    else if status == "SUCCEEDED"
    then "succeeded"
    else if status == "FAILED"
    then "failed"
    else if status == "EXPIRED"
    then "expired"
    else if status == "CANCELED"
    then "canceled"
    else status

abbrev webhook_audit : String → String → Dict MetaValue → AuditLog
webhook_audit action resource_id metadata = record {
  actor = "stripe_webhook";
  actor_type = "system";
  action = action;
  resource = "payment";
  resource_id = some resource_id;
  request_id = none;
  call_id = none;
  event_metadata = metadata;
}

-- The fields that an event sets on its payment.
unfoldable pub moved : ℕ → WebhookEvent → String → Payment → Payment
moved now event new_status payment = record payment {
  status = new_status;
  provider_payment_intent_id = elim (truthy_text event.payment_intent_id) [
    | none ↦ payment.provider_payment_intent_id
    | some intent ↦ some intent
  ];
  completed_at = if new_status == "SUCCEEDED" then some now else payment.completed_at;
  failure_code =
      if new_status == "FAILED"
      then some (or_default event.failure_code "payment_failed")
      else payment.failure_code;
  failure_message =
      if new_status == "FAILED"
      then some (or_default event.failure_message "The payment method could not be charged.")
      else payment.failure_message;
}

-- The rows of the payment and of its booking, and one audit row.
unfoldable pub record_move : ℕ → WebhookEvent → Payment → Booking → String → String → Db → Db
record_move now event payment booking new_status booking_status d =
    record_audit_event
      (webhook_audit (join "payment." (lower new_status)) payment.id (
        ("pnr", text booking.pnr)
        ∷ ("event_type", text event.event_type)
        ∷ ("event_id", text event.event_id)
        ∷ []))
      (update_booking payment.booking_id (set_payment_status booking_status)
        (update_payment payment.id (moved now event new_status) d))

-- An event that names no session has no payment.
abbrev pub find_payment : Option String → Db → Option Payment
find_payment none d = none
find_payment (some id) d = get_by_provider_session_id id d

module _ {S : Type 0} (now : ℕ) (event : WebhookEvent) where
  abbrev pub finish : Dict String → String → Action (World S) String
  finish result outcome = do complete_key (dedup_key event) result now; pure outcome

  abbrev pub move_payment : Payment → String → Action (World S) String
  move_payment payment new_status = do
    found ← query (get_booking_by_id payment.booking_id)
    booking ← or_raise found attribute_error
    booking_status ← or_raise (lookup new_status booking_payment_status_for_session) key_error
    modify (record_move now event payment booking new_status booking_status)
    commit_session
    finish (("outcome", "transitioned") ∷ ("new_status", new_status) ∷ [])
        (join "payment_" (lower new_status))

  abbrev pub apply_event : Payment → Option String → Action (World S) String
  apply_event payment none = finish (("outcome", "no_transition") ∷ []) "no_transition_needed"
  apply_event payment (some new_status) =
      if can_transition payment.status new_status
      then move_payment payment new_status
      else finish (("outcome", "no_transition") ∷ []) "no_transition_needed"

  abbrev pub report_unmatched : Action (World S) String
  report_unmatched = do
    modify (
        record_audit_event (
          webhook_audit "payment.webhook_unmatched_session"
            (or_default event.provider_session_id "unknown")
            (("event_type", text event.event_type) ∷ ("event_id", text event.event_id) ∷ [])))
    commit_session
    finish (("outcome", "unmatched_session") ∷ []) "unmatched_session_ignored"

  abbrev pub match_payment : Option Payment → Action (World S) String
  match_payment none = report_unmatched
  match_payment (some payment) =
      apply_event payment (new_status_for_webhook_event event.event_type event.payment_paid)

  -- The body of the `try`.
  unfoldable pub process_event : Action (World S) String
  process_event =
      if contains event.event_type relevant_webhook_event_types
      then query (find_payment (truthy_text event.provider_session_id)) >>= match_payment
      else finish (("outcome", "ignored_irrelevant_type") ∷ []) "ignored_irrelevant_event_type"

  abbrev pub process_once : Option StoredResult → Action (World S) String
  process_once (some _) = pure "duplicate_event_ignored"
  process_once none = or_undo (dedup_key event) process_event

  -- What happens to an event whose signature is right.
  unfoldable pub handle_event : Action (World S) String
  handle_event = begin_key (dedup_key event) now >>= process_once

unfoldable pub handle_webhook_event :
    {S : Type 0} → PaymentProvider S → ℕ → String → Option String → Action (World S) String
unfolding handle_event
handle_webhook_event provider now raw_payload signature_header w =
    elim (provider.verify_and_parse_webhook raw_payload signature_header) [
      | err e ↦ (err e, w)
      | ok event ↦ handle_event now event w
    ]
