-- ===== src/MockAirline.antt =====
-- `MockAirlineProvider` of apps/api/app/providers/airline/mock.py: fares, bookings, passengers and
-- cancellation. A flight is what its random generator makes of a flight id, and an argument, as are
-- the references that are drawn. Factors are per cent.
pub mod Cancellation
use vapivoiceassistant.Prelude.{
  ℕ, zero, suc, ◌+◌, ◌*◌, ◌/◌, ltb, leb, String, Bool, true, false, not, Option, none, some, List,
  [], ◌∷◌, ◌++◌, ◌==◌, holds, is_some, keep, length, if◌then◌else◌,
}
use vapivoiceassistant.Prelude.Int.{ℤ, pos, negsuc, ◌+ℤ◌, ◌-ℤ◌}
use vapivoiceassistant.Prelude.Dict.{Dict, lookup, insert}
use vapivoiceassistant.Errors.{Result, ok, err, Action, provider_error, key_error}
use vapivoiceassistant.AirlineProvider.{
  CabinClass, economy, premium_economy, business, first, charter, ProviderBookingStatus, held,
  confirmed, ticketed, cancelled, modified, failed, PassengerInput, ProviderBooking,
  CancellationPolicy, CancellationResult,
}

-- The fields of `FlightOffer` that bookings use.
pub record FlightOffer : Type 0 where
  pub flight_id : String
  pub flight_number : String
  pub origin : String
  pub destination : String
  pub departure_time : ℕ
  pub arrival_time : ℕ
  pub aircraft_type : String
  pub price_per_passenger : ℤ
  pub currency : String

pub record FareQuote : Type 0 where
  pub quote_id : String
  pub flight_id : String
  pub base_fare : ℤ
  pub taxes : ℤ
  pub fees : ℤ
  pub total_price : ℤ
  pub currency : String
  pub expires_at : ℕ

pub record MockAirline : Type 0 where
  pub quotes : Dict (FareQuote × FlightOffer)
  pub bookings : Dict ProviderBooking
  pub idempotency_seen : Dict String

abbrev pub tax_rate : ℕ
tax_rate = 8

abbrev pub booking_fee : ℤ
booking_fee = pos 2500

-- Minutes.
abbrev pub quote_validity : ℕ
quote_validity = 15

-- `-n`
abbrev negated : ℕ → ℤ
negated zero = pos 0
negated (suc n) = negsuc n

-- `_money(value * pct / 100)`, halves rounded away from zero.
unfoldable pub money_percent : ℤ → ℕ → ℤ
money_percent (pos n) pct = pos ((n * pct + 50) / 100)
money_percent (negsuc n) pct = negated ((suc n * pct + 50) / 100)

abbrev adults_weight : ℕ → ℕ → ℕ → ℕ
adults_weight adults children infants = 100 * adults + 75 * children + 10 * infants

unfoldable pub get_fare_quote :
    (String → Result FlightOffer) → String → ℕ → String → ℕ → ℕ → ℕ → Action MockAirline FareQuote
get_fare_quote flight new_quote_id now flight_id adults children infants m =
    elim (flight flight_id) [
      | err e ↦ (err e, m)
      | ok offer ↦
          let base_fare =
            money_percent offer.price_per_passenger (adults_weight adults children infants) in
          let taxes = money_percent base_fare tax_rate in
          let quote : FareQuote = record {
            quote_id = new_quote_id;
            flight_id = flight_id;
            base_fare = base_fare;
            taxes = taxes;
            fees = booking_fee;
            total_price = base_fare +ℤ taxes +ℤ booking_fee;
            currency = offer.currency;
            expires_at = now + quote_validity * 60;
          } in
          (ok quote, record m { quotes = insert new_quote_id (quote, offer) m.quotes })
    ]

abbrev new_booking :
    String → ℕ → FareQuote → FlightOffer → List PassengerInput → String → String → ProviderBooking
new_booking reference now quote offer passengers contact_email contact_phone = record {
  provider_booking_reference = reference;
  status = confirmed;
  flight_id = offer.flight_id;
  flight_number = offer.flight_number;
  origin = offer.origin;
  destination = offer.destination;
  departure_time = offer.departure_time;
  arrival_time = offer.arrival_time;
  aircraft_type = offer.aircraft_type;
  passengers = passengers;
  contact_email = contact_email;
  contact_phone = contact_phone;
  total_price = quote.total_price;
  currency = quote.currency;
  created_at = now;
  updated_at = now;
}

-- `self._bookings[ref]` of a method that reads it.
abbrev pub known_booking : Option ProviderBooking → Action MockAirline ProviderBooking
known_booking none m = (err (provider_error "BOOKING_NOT_FOUND"), m)
known_booking (some b) m = (ok b, m)

unfoldable pub get_booking : String → Action MockAirline ProviderBooking
get_booking reference m = known_booking (lookup reference m.bookings) m

abbrev pub book_quote :
    Option (FareQuote × FlightOffer)
    → String
    → ℕ
    → List PassengerInput
    → String
    → String
    → String
    → Action MockAirline ProviderBooking
book_quote none reference now passengers contact_email contact_phone key m =
    (err (provider_error "FARE_EXPIRED"), m)
book_quote (some (quote, offer)) reference now passengers contact_email contact_phone key m =
    if ltb quote.expires_at now then (err (provider_error "FARE_EXPIRED"), m) else (
      ok (new_booking reference now quote offer passengers contact_email contact_phone),
      record m {
        bookings =
            insert reference
              (new_booking reference now quote offer passengers contact_email contact_phone)
              m.bookings;
        idempotency_seen = insert key reference m.idempotency_seen;
      },
    )

abbrev stored_booking : Option ProviderBooking → Action MockAirline ProviderBooking
stored_booking none m = (err key_error, m)
stored_booking (some b) m = (ok b, m)

unfoldable pub create_booking :
    String
    → ℕ
    → String
    → List PassengerInput
    → String
    → String
    → String
    → Action MockAirline ProviderBooking
create_booking reference now quote_id passengers contact_email contact_phone key m =
    elim (lookup key m.idempotency_seen) [
      | some existing ↦ stored_booking (lookup existing m.bookings) m
      | none ↦
          book_quote (lookup quote_id m.quotes) reference now passengers contact_email contact_phone
            key m
    ]

-- `booking.status == ProviderBookingStatus.CANCELLED`
abbrev pub is_cancelled : ProviderBookingStatus → Bool
is_cancelled held = false
is_cancelled confirmed = false
is_cancelled ticketed = false
is_cancelled cancelled = true
is_cancelled modified = false
is_cancelled failed = false

-- The price of a flight for a number of passengers, with tax and fee.
abbrev pub price_for : FlightOffer → ℕ → ℤ
price_for offer n = money_percent offer.price_per_passenger (n * (100 + tax_rate)) +ℤ booking_fee

-- `timedelta(hours=hours)`
abbrev pub hours : ℕ → ℕ
hours n = n * 3600

-- The percentage of the price that is kept, by the time until the departure.
unfoldable pub fee_percent : ℕ → ℕ → ℕ
fee_percent departure_time now =
    if leb departure_time (now + hours 24)
    then 90
    else if leb departure_time (now + hours 48)
    then 50
    else if leb departure_time (now + hours 168)
    then 25
    else 10

abbrev no_refund : ProviderBooking → ℕ → CancellationPolicy
no_refund booking now = record {
  provider_booking_reference = booking.provider_booking_reference;
  refundable_amount = pos 0;
  cancellation_fee = pos 0;
  non_refundable_amount = pos 0;
  currency = booking.currency;
  deadline = now;
  already_cancelled = true;
}

abbrev pub fee_of : ProviderBooking → ℕ → ℤ
fee_of booking now = money_percent booking.total_price (fee_percent booking.departure_time now)

-- `_compute_cancellation_policy`
unfoldable pub compute_cancellation_policy : ProviderBooking → ℕ → CancellationPolicy
compute_cancellation_policy booking now =
    if is_cancelled booking.status then no_refund booking now else record {
      provider_booking_reference = booking.provider_booking_reference;
      refundable_amount = booking.total_price -ℤ fee_of booking now;
      cancellation_fee = fee_of booking now;
      non_refundable_amount = fee_of booking now;
      currency = booking.currency;
      deadline = now + quote_validity * 60;
      already_cancelled = false;
    }

abbrev pub policy_known : ℕ → Option ProviderBooking → Action MockAirline CancellationPolicy
policy_known now none m = (err (provider_error "BOOKING_NOT_FOUND"), m)
policy_known now (some booking) m = (ok (compute_cancellation_policy booking now), m)

unfoldable pub get_cancellation_policy : ℕ → String → Action MockAirline CancellationPolicy
get_cancellation_policy now reference m = policy_known now (lookup reference m.bookings) m

abbrev pub result_of : CancellationPolicy → Bool → CancellationResult
result_of policy already = record {
  provider_booking_reference = policy.provider_booking_reference;
  status = cancelled;
  refundable_amount = policy.refundable_amount;
  cancellation_fee = policy.cancellation_fee;
  currency = policy.currency;
  already_cancelled = already;
}

abbrev pub nothing_left : String → ProviderBooking → CancellationResult
nothing_left reference booking = record {
  provider_booking_reference = reference;
  status = cancelled;
  refundable_amount = pos 0;
  cancellation_fee = pos 0;
  currency = booking.currency;
  already_cancelled = true;
}

abbrev pub cancelled_at : ℕ → ProviderBooking → ProviderBooking
cancelled_at now b = record b { status = cancelled; updated_at = now }

abbrev result_for : String → CancellationPolicy → CancellationResult
result_for reference policy = record (result_of policy false) {
  provider_booking_reference = reference;
}

-- The key is noted unless it is known.
abbrev note_key : String → String → Dict String → Dict String
note_key key reference seen = if is_some (lookup key seen) then seen else insert key reference seen

abbrev pub cancel_known :
    ℕ → String → String → Option ProviderBooking → Action MockAirline CancellationResult
cancel_known now reference key none m = (err (provider_error "BOOKING_NOT_FOUND"), m)
cancel_known now reference key (some booking) m =
    if is_cancelled booking.status then (ok (nothing_left reference booking), m) else (
      ok (result_for reference (compute_cancellation_policy booking now)),
      record m {
        bookings = insert reference (cancelled_at now booking) m.bookings;
        idempotency_seen = note_key key reference m.idempotency_seen;
      },
    )

unfoldable pub cancel_booking : ℕ → String → String → Action MockAirline CancellationResult
cancel_booking now reference key m = cancel_known now reference key (lookup reference m.bookings) m

abbrev pub repriced : ℕ → FlightOffer → List PassengerInput → ProviderBooking → ProviderBooking
repriced now offer passengers b = record b {
  passengers = passengers;
  total_price = price_for offer (length passengers);
  updated_at = now;
}

abbrev store_repriced :
    (String → Result FlightOffer)
    → ℕ
    → String
    → List PassengerInput
    → ProviderBooking
    → Action MockAirline ProviderBooking
store_repriced flight now reference passengers booking m = elim (flight booking.flight_id) [
  | err e ↦ (err e, m)
  | ok offer ↦ (
    ok (repriced now offer passengers booking),
    record m { bookings = insert reference (repriced now offer passengers booking) m.bookings },
  )
]

abbrev with_id : String → PassengerInput → PassengerInput
with_id new_id p = record p {
  passenger_id = elim (p.passenger_id) [ none ↦ some new_id | some id ↦ some id ];
}

abbrev add_to_known :
    (String → Result FlightOffer)
    → String
    → ℕ
    → String
    → PassengerInput
    → Option ProviderBooking
    → Action MockAirline ProviderBooking
add_to_known flight new_id now reference passenger none m =
    (err (provider_error "BOOKING_NOT_FOUND"), m)
add_to_known flight new_id now reference passenger (some booking) m =
    store_repriced flight now reference (booking.passengers ++ (with_id new_id passenger ∷ []))
      booking m

unfoldable pub add_passenger :
    (String → Result FlightOffer)
    → String
    → ℕ
    → String
    → PassengerInput
    → Action MockAirline ProviderBooking
add_passenger flight new_id now reference passenger m =
    add_to_known flight new_id now reference passenger (lookup reference m.bookings) m

abbrev others_than : String → List PassengerInput → List PassengerInput
others_than passenger_id passengers = keep (λ p. not (holds p.passenger_id passenger_id)) passengers

abbrev is_empty : List PassengerInput → Bool
is_empty [] = true
is_empty (p ∷ ps) = false

abbrev remove_from_known :
    (String → Result FlightOffer)
    → ℕ
    → String
    → String
    → Option ProviderBooking
    → Action MockAirline ProviderBooking
remove_from_known flight now reference passenger_id none m =
    (err (provider_error "BOOKING_NOT_FOUND"), m)
remove_from_known flight now reference passenger_id (some booking) m =
    let left = others_than passenger_id booking.passengers in
    if leb (length booking.passengers) (length left)
    then (err (provider_error "PASSENGER_NOT_FOUND"), m)
    else if is_empty left
    then (err (provider_error "PASSENGER_VALIDATION_FAILED"), m)
    else store_repriced flight now reference left booking m

unfoldable pub remove_passenger :
    (String → Result FlightOffer) → ℕ → String → String → Action MockAirline ProviderBooking
remove_passenger flight now reference passenger_id m =
    remove_from_known flight now reference passenger_id (lookup reference m.bookings) m
