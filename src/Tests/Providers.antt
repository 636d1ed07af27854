-- ===== src/Tests/Providers.antt =====
-- Witnesses for the mock providers.
use vapivoiceassistant.Prelude.{◌≡◌, refl, String, true, false, some, List, [], ◌∷◌, arith}
use vapivoiceassistant.Prelude.Int.{pos, ◌+ℤ◌, ◌-ℤ◌, ◌≤ℤ◌}
use vapivoiceassistant.Prelude.Dict.{AllEntries, lookup}
use vapivoiceassistant.Errors.{ok}
use vapivoiceassistant.AirlineProvider.{CancellationResult, cancelled}
use vapivoiceassistant.PaymentProvider.{RefundResult, complete, succeeded}
use vapivoiceassistant.MockPayments.{
  MockPayments, MockSession, no_payments, refund_payment, session_with_intent,
}
use vapivoiceassistant.MockPayments.Ledger.{
  MockOp, op_create, op_refund, op_complete, op_expire, run_mocks, IsCovered,
  refund_payment-replays, run_mocks-IsCovered,
}
use vapivoiceassistant.MockAirline.{
  MockAirline, money_percent, fee_percent, compute_cancellation_policy, cancel_booking,
}
use vapivoiceassistant.MockAirline.Cancellation.{
  compute_cancellation_policy_lem, cancel_booking-repeated,
}
use vapivoiceassistant.Tests.Data.{airline_booking}

abbrev digest : String → String
digest key = key

abbrev ops : List MockOp
ops =
    op_create (pos 10000) "EUR" "k1" 0
    ∷ op_complete "mock_cs_k1" true "pi1"
    ∷ op_refund "pi1" (pos 4000) "EUR" "r1"
    ∷ op_refund "pi1" (pos 9000) "EUR" "r2"
    ∷ op_expire "mock_cs_k1"
    ∷ []

run_mocks-IsCovered_example : AllEntries IsCovered (run_mocks digest ops no_payments).sessions
run_mocks-IsCovered_example =
    run_mocks-IsCovered digest ops (omega arith, (tt, (tt, (tt, (tt, tt)))))

abbrev paid_session : MockSession
paid_session = record {
  provider_session_id = "cs1";
  amount = pos 10000;
  currency = "EUR";
  status = complete;
  payment_paid = true;
  payment_intent_id = some "pi1";
  expires_at = 86400;
  refunded_amount = pos 0;
}

abbrev one_session : MockPayments
one_session = record {
  by_idempotency_key = ("k1", "cs1") ∷ [];
  sessions = ("cs1", paid_session) ∷ [];
  refunds = [];
}

abbrev first_refund : RefundResult
first_refund = record {
  provider_refund_id = "mock_re_r1";
  status = succeeded;
  amount = pos 4000;
  currency = "EUR";
}

first_refunded : (refund_payment digest "pi1" (pos 4000) "EUR" "r1" one_session).0 ≡ ok first_refund
unfolding refund_payment lookup session_with_intent ◌+ℤ◌
first_refunded = refl

refund_payment-replays_example :
    let m =
      run_mocks digest ops (refund_payment digest "pi1" (pos 4000) "EUR" "r1" one_session).1 in
    refund_payment digest "pi2" (pos 7000) "USD" "r1" m ≡ (ok first_refund, m)
refund_payment-replays_example =
    refund_payment-replays digest "pi1" "pi2" (pos 4000) (pos 7000) "EUR" "USD" "r1" first_refund
      one_session ops first_refunded

compute_cancellation_policy_lem_example :
    let policy = compute_cancellation_policy airline_booking 1000 in
    (policy.cancellation_fee +ℤ policy.refundable_amount ≡ airline_booking.total_price)
    × ((pos 0 ≤ℤ policy.refundable_amount)
        × ((pos 0 ≤ℤ policy.cancellation_fee)
            × ((compute_cancellation_policy airline_booking 900000).refundable_amount
                ≤ℤ policy.refundable_amount)))
compute_cancellation_policy_lem_example =
    compute_cancellation_policy_lem airline_booking 12000 1000 900000 refl refl (omega arith)

abbrev one_booking : MockAirline
one_booking = record {
  quotes = [];
  bookings = ("PRV2", airline_booking) ∷ [];
  idempotency_seen = [];
}

abbrev early_cancellation : CancellationResult
early_cancellation = record {
  provider_booking_reference = "PRV2";
  status = cancelled;
  refundable_amount = pos 10800;
  cancellation_fee = pos 1200;
  currency = "EUR";
  already_cancelled = false;
}

cancelled_early : (cancel_booking 1000 "PRV2" "k1" one_booking).0 ≡ ok early_cancellation
unfolding cancel_booking lookup compute_cancellation_policy money_percent fee_percent ◌-ℤ◌
cancelled_early = refl

cancel_booking-repeated_example :
    let m = (cancel_booking 1000 "PRV2" "k1" one_booking).1 in
    (r : CancellationResult) × ((cancel_booking 5000 "PRV2" "k2" m ≡ (ok r, m))
      × ((r.refundable_amount ≡ pos 0) × (r.already_cancelled ≡ true)))
cancel_booking-repeated_example =
    cancel_booking-repeated 1000 5000 "PRV2" "k1" "k2" early_cancellation one_booking
      cancelled_early
