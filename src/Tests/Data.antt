-- ===== src/Tests/Data.antt =====
-- A database with a booking and its payment, and providers, for the witnesses.
use vapivoiceassistant.Prelude.{
  String, refl, ap, sym, true, false, none, some, List, [], ◌∷◌, contains,
}
use vapivoiceassistant.Prelude.Int.{ℤ, pos}
use vapivoiceassistant.Errors.{ok, ok-injective, err, payment_provider_error}
use vapivoiceassistant.Models.{Booking, BookingPassenger, Payment}
use vapivoiceassistant.StateMachine.{is_terminal}
use vapivoiceassistant.Database.{Db}
use vapivoiceassistant.Database.Rows.{IsConsistent}
use vapivoiceassistant.PaymentProvider.{
  PaymentProvider, CheckoutSession, PaymentStatusResult, RefundResult, WebhookEvent, is_open,
  complete, succeeded,
}
use vapivoiceassistant.AirlineProvider.{
  AirlineProvider, ProviderBooking, CancellationResult, CancellationPolicy, cancelled, confirmed,
}
use vapivoiceassistant.Services.{World, Env}
use vapivoiceassistant.PaymentService.Refund.Totals.{RefundsExactly}

abbrev pub traveller : String → BookingPassenger
traveller id = record {
  id = id;
  provider_passenger_id = some id;
  first_name = "Ada";
  middle_name = none;
  last_name = "Byron";
  date_of_birth = none;
  passenger_type = "adult";
  gender = none;
  nationality = none;
  passport_number_encrypted = none;
  passport_country = none;
  passport_expiry = none;
  frequent_flyer_number = none;
  meal_preference = none;
  seat_preference = none;
  special_assistance = none;
}

abbrev pub booking_with : String → Booking
booking_with payment_status = record {
  id = "b1";
  pnr = "ABC234";
  provider_booking_reference = some "PRV1";
  provider_name = "mock";
  status = "CONFIRMED";
  payment_status = payment_status;
  customer_id = "c1";
  origin = "BER";
  destination = "LHR";
  flight_number = "CX100";
  aircraft_type = "A320";
  departure_time = 1000000;
  arrival_time = 1010000;
  currency = "EUR";
  base_fare = pos 10000;
  tax = pos 0;
  fees = pos 0;
  total_price = pos 10000;
  cancellation_deadline = none;
  contact_email = "ada@example.org";
  contact_phone = "+491";
  passengers = traveller "p1" ∷ traveller "p2" ∷ [];
  updated_at = 0;
}

abbrev pub payment_with : String → Payment
payment_with status = record {
  id = "pay1";
  booking_id = "b1";
  customer_id = "c1";
  provider_name = "fixed";
  provider_session_id = some "cs1";
  provider_payment_intent_id = some "pi1";
  status = status;
  amount = pos 10000;
  currency = "EUR";
  idempotency_key = "key-0001";
  checkout_url = none;
  expires_at = none;
  completed_at = none;
  failure_code = none;
  failure_message = none;
  provider_refund_id = none;
  refunded_amount = none;
  refund_status = none;
  refunded_at = none;
  refund_reason = none;
}

abbrev pub db_with : List Booking → List Payment → Db
db_with bookings payments = record {
  bookings = bookings;
  payments = payments;
  audit_logs = [];
  customers = [];
  tool_executions = [];
}

abbrev pub world_of : {S : Type 0} → Db → S → World S
world_of d s = record {
  session = record { committed = d; working = d };
  idempotency = [];
  provider = s;
}

abbrev pub env : Env
env = record {
  now = 1000;
  new_id = "n1";
  actor = "assistant";
  call_id = some "call1";
  request_id = none;
}

abbrev pub unpaid_db : Db
unpaid_db = db_with (booking_with "UNPAID" ∷ []) []

abbrev pub paid_db : Db
paid_db = db_with (booking_with "PAID" ∷ []) (payment_with "SUCCEEDED" ∷ [])

abbrev pub waiting_db : Db
waiting_db = db_with (booking_with "PENDING" ∷ []) (payment_with "PENDING" ∷ [])

pub unpaid_db-IsConsistent : IsConsistent unpaid_db
unpaid_db-IsConsistent = record { settled = tt; shown = (λ _. tt, tt) }

pub paid_db-IsConsistent : IsConsistent paid_db
unfolding is_terminal contains
paid_db-IsConsistent = record { settled = (tt, (tt, tt)); shown = (λ _. (λ _. refl, tt), tt) }

pub waiting_db-IsConsistent : IsConsistent waiting_db
waiting_db-IsConsistent = record { settled = (tt, (tt, tt)); shown = (λ k. absurd (cc k), tt) }

-- A payment provider that does what it is asked.
abbrev pub paid_event : WebhookEvent
paid_event = record {
  event_id = "evt1";
  event_type = "checkout.session.completed";
  provider_session_id = some "cs1";
  payment_intent_id = some "pi1";
  payment_paid = some true;
  failure_code = none;
  failure_message = none;
}

abbrev opened_session : ℤ → String → CheckoutSession
opened_session amount currency = record {
  provider_session_id = "cs2";
  checkout_url = "https://pay.example.org/cs2";
  status = is_open;
  amount = amount;
  currency = currency;
  expires_at = 87400;
  payment_intent_id = none;
}

abbrev session_status : String → PaymentStatusResult
session_status id = record {
  provider_session_id = id;
  status = complete;
  payment_paid = true;
  payment_intent_id = some "pi1";
  amount = pos 10000;
  currency = "EUR";
}

abbrev refund_of : ℤ → String → RefundResult
refund_of amount currency = record {
  provider_refund_id = "re1";
  status = succeeded;
  amount = amount;
  currency = currency;
}

abbrev pub fixed_payments : PaymentProvider (Unit {0})
fixed_payments = record {
  name = "fixed";
  create_checkout_session =
      λ reference amount currency key s. (ok (opened_session amount currency), s);
  get_session_status = λ id s. (ok (session_status id), s);
  refund_payment = λ intent amount currency key reason s. (ok (refund_of amount currency), s);
  verify_and_parse_webhook = λ payload signature. elim signature [
    | none ↦ err (payment_provider_error "WEBHOOK_SIGNATURE_INVALID")
    | some _ ↦ ok paid_event
  ];
}

pub fixed_payments-RefundsExactly : RefundsExactly fixed_payments
fixed_payments-RefundsExactly intent sum currency key reason s result e =
    ap (λ (r : RefundResult). r.amount) (sym (ok-injective e))

-- An airline that does what it is asked.
abbrev pub airline_booking : ProviderBooking
airline_booking = record {
  provider_booking_reference = "PRV2";
  status = confirmed;
  flight_id = "MOCK_BER_LHR_2026-01-01_0_economy";
  flight_number = "CX100";
  origin = "BER";
  destination = "LHR";
  departure_time = 1000000;
  arrival_time = 1010000;
  aircraft_type = "A320";
  passengers = [];
  contact_email = "ada@example.org";
  contact_phone = "+491";
  total_price = pos 12000;
  currency = "EUR";
  created_at = 0;
  updated_at = 0;
}

abbrev policy : CancellationPolicy
policy = record {
  provider_booking_reference = "PRV1";
  refundable_amount = pos 7500;
  cancellation_fee = pos 2500;
  non_refundable_amount = pos 2500;
  currency = "EUR";
  deadline = 1900;
  already_cancelled = false;
}

abbrev cancellation : CancellationResult
cancellation = record {
  provider_booking_reference = "PRV1";
  status = cancelled;
  refundable_amount = pos 7500;
  cancellation_fee = pos 2500;
  currency = "EUR";
  already_cancelled = false;
}

abbrev pub fixed_airline : AirlineProvider (Unit {0})
fixed_airline = record {
  create_booking = λ quote passengers email phone key s. (ok airline_booking, s);
  update_booking = λ reference changes key s. (ok airline_booking, s);
  cancel_booking = λ reference key s. (ok cancellation, s);
  get_cancellation_policy = λ reference s. (ok policy, s);
  add_passenger = λ reference p s. (ok (airline_booking, p), s);
  remove_passenger = λ reference id s. (ok airline_booking, s);
}
