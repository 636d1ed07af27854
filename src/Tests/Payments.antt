-- ===== src/Tests/Payments.antt =====
-- Witnesses for the payment service, the state machine and the idempotency store.
use vapivoiceassistant.Prelude.{
  ℕ, ap, ◌≤◌, ◌≡◌, refl, String, true, some, none, List, [], ◌∷◌, length, contains, arith,
}
use vapivoiceassistant.Prelude.Dict.{lookup}
use vapivoiceassistant.Prelude.Int.{pos, ◌-ℤ◌}
use vapivoiceassistant.Errors.{Result, ok}
use vapivoiceassistant.StateMachine.{can_transition, new_status_for_webhook_event}
use vapivoiceassistant.StateMachine.Lifecycle.{Run, stop, move, length-Run-le}
use vapivoiceassistant.Idempotency.Laws.{Op, op_begin, op_complete, times_taken, times_taken-le}
use vapivoiceassistant.PaymentProvider.{RefundResult, failed, WebhookEvent}
use vapivoiceassistant.Database.Updates.{KeepsFinal}
use vapivoiceassistant.Services.{World, IsSound}
use vapivoiceassistant.Services.Outcomes.{After}
use vapivoiceassistant.PaymentService.Create.{PaymentSessionCreateRequest, create_payment_session}
use vapivoiceassistant.PaymentService.Create.Atomic.{create_payment_session-After}
use vapivoiceassistant.PaymentService.Refund.{
  RefundCreateRequest, refund_payment, refunded, is_invalid_refund, remaining,
}
use vapivoiceassistant.PaymentService.Refund.Totals.{refund_uses_up}
use vapivoiceassistant.PaymentService.Refund.Balanced.{IsBalanced, refund_payment-After}
use vapivoiceassistant.PaymentService.Webhook.{handle_event, handle_webhook_event, find_payment}
use vapivoiceassistant.PaymentService.Webhook.Moved.{handle_event_moves}
use vapivoiceassistant.PaymentService.Webhook.Redelivered.{deliver_all, handle_event-redelivered}
use vapivoiceassistant.Database.{get_by_provider_session_id, get_booking_by_id}
use vapivoiceassistant.PaymentService.Webhook.Sound.{
  IsRemembered, handle_event-After, handle_webhook_event-After,
}
use vapivoiceassistant.Tests.Data.{
  unpaid_db, paid_db, waiting_db, unpaid_db-IsConsistent, paid_db-IsConsistent,
  waiting_db-IsConsistent, world_of, env, fixed_payments, fixed_payments-RefundsExactly, paid_event,
  payment_with, booking_with,
}

bank_debit-Run : Run "PENDING" ("PROCESSING" ∷ "SUCCEEDED" ∷ [])
unfolding can_transition contains lookup
bank_debit-Run = move refl (move refl stop)

length-Run-le_example : length {A = String} ("PROCESSING" ∷ "SUCCEEDED" ∷ []) ≤ 2
length-Run-le_example = length-Run-le bank_debit-Run

completed_status :
    new_status_for_webhook_event "checkout.session.completed" (some true) ≡ some "SUCCEEDED"
unfolding new_status_for_webhook_event
completed_status = refl

abbrev session_request : PaymentSessionCreateRequest
session_request = record { pnr = "ABC234"; idempotency_key = "key-0002"; customer_confirmed = true }

abbrev unpaid_world : World (Unit {0})
unpaid_world = world_of unpaid_db tt

create_payment_session-After_example :
    After
      (λ _. IsSound)
      (λ _ w. IsSound w × (w.session.committed ≡ unpaid_world.session.committed))
      (create_payment_session fixed_payments none env session_request unpaid_world)
create_payment_session-After_example =
    create_payment_session-After fixed_payments none env session_request unpaid_world
      (unpaid_db-IsConsistent, unpaid_db-IsConsistent)

abbrev waiting_world : World (Unit {0})
waiting_world = world_of waiting_db tt

handle_webhook_event-After_example :
    After
      (λ _ w. IsSound w × KeepsFinal waiting_world.session.working w.session.working)
      (λ _ w. IsSound w × (w.session.committed ≡ waiting_world.session.committed))
      (handle_webhook_event fixed_payments 1000 "payload" (some "signature") waiting_world)
handle_webhook_event-After_example =
    handle_webhook_event-After fixed_payments 1000 "payload" (some "signature") waiting_world
      (waiting_db-IsConsistent, waiting_db-IsConsistent)

handle_event-After_example :
    After
      (λ _ w.
        IsSound w
        × (IsRemembered paid_event w × KeepsFinal waiting_world.session.working w.session.working))
      (λ _ w. IsSound w × (w.session.committed ≡ waiting_world.session.committed))
      (handle_event 1000 paid_event waiting_world)
handle_event-After_example =
    handle_event-After 1000 paid_event waiting_world
      (waiting_db-IsConsistent, waiting_db-IsConsistent)

handle_event_moves_example :
    let r = handle_event 1000 paid_event waiting_world in
    (r.0 ≡ ok "payment_succeeded")
    × ((find_payment (some "cs1") r.1.session.committed
          ≡ some (record (payment_with "PENDING") {
            status = "SUCCEEDED";
            provider_payment_intent_id = some "pi1";
            completed_at = some 1000;
          }))
        × (get_booking_by_id "b1" r.1.session.committed ≡ some (booking_with "PAID")))
unfolding lookup get_by_provider_session_id get_booking_by_id new_status_for_webhook_event
    can_transition contains
handle_event_moves_example =
    handle_event_moves 1000 paid_event (payment_with "PENDING") (booking_with "PENDING") "SUCCEEDED"
      "PAID" waiting_world refl refl refl refl refl refl

-- The same session reports a failure before the first event is delivered again.
abbrev failed_event : WebhookEvent
failed_event = record paid_event {
  event_id = "evt2";
  event_type = "checkout.session.async_payment_failed";
}

abbrev in_between : List (ℕ × WebhookEvent)
in_between = (1010, failed_event) ∷ (1020, paid_event) ∷ []

abbrev delivered : Result String × World (Unit {0})
delivered = handle_event 1000 paid_event waiting_world

delivered_returns : delivered ≡ (ok "payment_succeeded", delivered.1)
delivered_returns = ap (λ r. (r, delivered.1)) handle_event_moves_example.0

handle_event-redelivered_example :
    handle_event 1030 paid_event (deliver_all in_between delivered.1)
    ≡ (ok "duplicate_event_ignored", deliver_all in_between delivered.1)
handle_event-redelivered_example =
    handle_event-redelivered 1000 1030 paid_event in_between waiting_world
      (waiting_db-IsConsistent, waiting_db-IsConsistent) delivered_returns

abbrev refund_request : RefundCreateRequest
refund_request = record {
  pnr = "ABC234";
  idempotency_key = "key-0003";
  confirmed = true;
  amount = some (pos 4000);
  reason = none;
}

abbrev paid_world : World (Unit {0})
paid_world = world_of paid_db tt

paid_world-IsBalanced : IsBalanced paid_world
paid_world-IsBalanced =
    ((paid_db-IsConsistent, paid_db-IsConsistent), ((omega arith, tt), (omega arith, tt)))

refund_payment-After_example :
    After
      (λ _. IsBalanced)
      (λ _. IsBalanced)
      (refund_payment fixed_payments env refund_request paid_world)
refund_payment-After_example =
    refund_payment-After fixed_payments env refund_request paid_world fixed_payments-RefundsExactly
      paid_world-IsBalanced

abbrev failed_refund : RefundResult
failed_refund = record {
  provider_refund_id = "re2";
  status = failed;
  amount = pos 10000;
  currency = "EUR";
}

all_remains : failed_refund.amount ≡ remaining (payment_with "SUCCEEDED")
unfolding ◌-ℤ◌
all_remains = refl

refund_uses_up_example :
    is_invalid_refund (pos 10000) (
      refunded 1000
        (some failed_refund)
        (remaining (payment_with "SUCCEEDED"))
        none
        (payment_with "SUCCEEDED"))
    ≡ true
refund_uses_up_example =
    refund_uses_up 1000 (payment_with "SUCCEEDED") failed_refund none (pos 10000) all_remains

abbrev two_callers : List Op
two_callers = op_begin "key-0001" 10 ∷ op_begin "key-0001" 11 ∷ op_complete "key-0001" [] 12 ∷ []

times_taken-le_example : times_taken "key-0001" two_callers [] ≤ 1
unfolding lookup
times_taken-le_example = times_taken-le "key-0001" two_callers [] (tt, (tt, (tt, tt)))
