-- ===== src/BookingService.antt =====
-- `BookingService` of apps/api/app/services/booking_service.py. What the database gives as new ids is
-- an argument: the booking's, the customer's and those of the passengers; so is what `secrets` draws.
pub mod Created
pub mod Atomic
use vapivoiceassistant.Prelude.{
  ℕ, zero, suc, ◌+◌, String, Bool, true, false, not, Option, none, some, List, [], ◌∷◌, ◌++◌, ◌==◌,
  map, truthy_text, is_some, if◌then◌else◌,
}
use vapivoiceassistant.Prelude.Int.{ℤ, pos}
use vapivoiceassistant.Prelude.Dict.{Dict, lookup}
use vapivoiceassistant.Errors.{
  Result, ok, err, Action, pure, raise, or_raise, validation_failed_error,
  verification_failed_error, key_error,
}
use vapivoiceassistant.Models.{Booking, BookingPassenger, Customer, AuditLog, text, names}
use vapivoiceassistant.Idempotency.{StoredResult}
use vapivoiceassistant.Database.{
  Db, get_by_pnr, pnr_exists, add_booking, get_or_create, update_booking, get_booking_by_id,
  record_audit_event,
}
use vapivoiceassistant.Pnr.{generate_unique_pnr}
use vapivoiceassistant.AirlineProvider.{AirlineProvider, ProviderBooking, PassengerInput}
use vapivoiceassistant.Services.{
  World, Env, audit, ◌>>=◌, ◌>>◌, raise_if, query, modify, try_modify, commit_session, begin_key,
  complete_key, call_provider, or_undo, or_else, find_booking, undo_session,
}

-- `PassengerCreate`, without its token.
pub record PassengerCreate : Type 0 where
  pub first_name : String
  pub middle_name : Option String
  pub last_name : String
  pub date_of_birth : Option String
  pub passenger_type : String
  pub gender : Option String
  pub nationality : Option String
  pub meal_preference : Option String
  pub seat_preference : Option String
  pub special_assistance : Option String
  pub frequent_flyer_number : Option String

-- `contact` is in two fields.
pub record BookingCreateRequest : Type 0 where
  pub quote_id : String
  pub passengers : List PassengerCreate
  pub email : String
  pub phone : String
  pub idempotency_key : String

abbrev pub passenger_input : PassengerCreate → PassengerInput
passenger_input p = record {
  first_name = p.first_name;
  last_name = p.last_name;
  date_of_birth = p.date_of_birth;
  passenger_type = p.passenger_type;
  passenger_id = none;
}

-- The new ids: of the booking, of the customer, and of the passenger at each place.
pub record NewIds : Type 0 where
  pub booking : String
  pub customer : String
  pub passenger : ℕ → String

abbrev booked_passenger : String → PassengerInput → BookingPassenger
booked_passenger id p = record {
  id = id;
  provider_passenger_id = p.passenger_id;
  first_name = p.first_name;
  middle_name = none;
  last_name = p.last_name;
  date_of_birth = p.date_of_birth;
  passenger_type = p.passenger_type;
  gender = none;
  nationality = none;
  passport_number_encrypted = none;
  passport_country = none;
  passport_expiry = none;
  frequent_flyer_number = none;
  meal_preference = none;
  seat_preference = none;
  special_assistance = none;
}

unfoldable pub booked_passengers : (ℕ → String) → ℕ → List PassengerInput → List BookingPassenger
booked_passengers id i [] = []
booked_passengers id i (p ∷ ps) = booked_passenger (id i) p ∷ booked_passengers id (suc i) ps

unfoldable pub new_booking :
    NewIds → ℕ → BookingCreateRequest → ProviderBooking → Customer → String → Booking
new_booking ids now request provider_booking customer pnr = record {
  id = ids.booking;
  pnr = pnr;
  provider_booking_reference = some provider_booking.provider_booking_reference;
  provider_name = "mock";
  status = "CONFIRMED";
  payment_status = "UNPAID";
  customer_id = customer.id;
  origin = provider_booking.origin;
  destination = provider_booking.destination;
  flight_number = provider_booking.flight_number;
  aircraft_type = provider_booking.aircraft_type;
  departure_time = provider_booking.departure_time;
  arrival_time = provider_booking.arrival_time;
  currency = provider_booking.currency;
  base_fare = provider_booking.total_price;
  tax = pos 0;
  fees = pos 0;
  total_price = provider_booking.total_price;
  cancellation_deadline = none;
  contact_email = request.email;
  contact_phone = request.phone;
  passengers = booked_passengers ids.passenger 0 provider_booking.passengers;
  updated_at = now;
}

-- The booking that a stored result names; an empty result names none.
unfoldable pub stored_booking :
    {S : Type 0} → Option (Dict String) → Action (World S) (Option Booking)
stored_booking none = pure none
stored_booking (some []) = pure none
stored_booking (some (e ∷ d)) = do
  pnr ← or_raise (lookup "pnr" (e ∷ d)) key_error
  query (get_by_pnr pnr)

-- The end of a replay: what was found, or a refusal.
abbrev pub replay_end : {S : Type 0} → Bool → Option Booking → Action (World S) (Option Booking)
replay_end in_progress (some booking) = pure (some booking)
replay_end in_progress none =
    if in_progress then raise (validation_failed_error "BOOKING_IN_PROGRESS") else pure none

unfoldable pub replay_booking :
    {S : Type 0} → Option StoredResult → Action (World S) (Option Booking)
unfolding stored_booking
replay_booking none = pure none
replay_booking (some cached) = do
  existing ← if cached.status == "completed" then stored_booking cached.result else pure none
  replay_end (cached.status == "in_progress") existing

-- What the notifier writes to the audit log when it confirms a booking. It never raises.
abbrev pub ConfirmationNotifier : Type 0
ConfirmationNotifier = Booking → List AuditLog

abbrev pub send_confirmation :
    {S : Type 0} → Option ConfirmationNotifier → Booking → Action (World S) (Unit {0})
send_confirmation none booking = pure tt
send_confirmation (some send) booking = do
  modify (λ d. record d { audit_logs = send booking ++ d.audit_logs })
  commit_session

module _ {A : Type 0} (airline : AirlineProvider A) (notifier : Option ConfirmationNotifier)
    (ids : NewIds) (draw : ℕ → String) (env : Env) where
  abbrev pub booking_created : Booking → ProviderBooking → AuditLog
  booking_created booking provider_booking =
      audit env "booking.created" "booking" booking.pnr
        (("provider_booking_reference", text provider_booking.provider_booking_reference) ∷ [])

  -- The new rows, with what goes with them in one transaction.
  unfoldable pub book_with : ProviderBooking → Booking → Db → Result Db
  book_with provider_booking booking d = elim (add_booking booking d) [
    | err e ↦ err e
    | ok d' ↦ ok (record_audit_event (booking_created booking provider_booking) d')
  ]

  abbrev pub confirm_booking : BookingCreateRequest → Booking → Action (World A) Booking
  confirm_booking request booking = do
    commit_session
    complete_key request.idempotency_key (("pnr", booking.pnr) ∷ []) env.now
    send_confirmation notifier booking
    pure booking

  abbrev pub store_booking :
      BookingCreateRequest → ProviderBooking → Customer → String → Action (World A) Booking
  store_booking request provider_booking customer pnr = do
    let booking = new_booking ids env.now request provider_booking customer pnr
    try_modify (book_with provider_booking booking)
    confirm_booking request booking

  abbrev pub add_customer : BookingCreateRequest → Action (World A) Customer
  add_customer request w =
      let (customer, d) =
        get_or_create ids.customer (some request.email) (some request.phone) w.session.working in
      (ok customer, record w { session = record w.session { working = d } })

  -- A PNR that no booking has.
  abbrev pub choose_pnr : Action (World A) String
  choose_pnr w = (generate_unique_pnr draw (λ pnr. pnr_exists pnr w.session.working), w)

  abbrev pub take_provider_booking :
      BookingCreateRequest → ProviderBooking → Action (World A) Booking
  take_provider_booking request provider_booking = do
    customer ← add_customer request
    pnr ← choose_pnr
    store_booking request provider_booking customer pnr

  -- The body of the `try`.
  abbrev pub book : BookingCreateRequest → Action (World A) Booking
  book request = do
    provider_booking ← call_provider (
        airline.create_booking request.quote_id (map passenger_input request.passengers)
          request.email request.phone request.idempotency_key)
    take_provider_booking request provider_booking

  unfoldable pub create_booking : BookingCreateRequest → Action (World A) Booking
  create_booking request = do
    cached ← begin_key request.idempotency_key env.now
    existing ← replay_booking cached
    or_else existing (or_undo request.idempotency_key (book request))

-- `verify` is what `BookingVerificationService.verify` answers for the booking.
unfoldable pub get_verified_booking :
    {A : Type 0} → String → (Booking → Bool) → Action (World A) Booking
get_verified_booking pnr verify = do
  booking ← find_booking pnr
  raise_if (not (verify booking)) (verification_failed_error "CUSTOMER_VERIFICATION_FAILED")
  pure booking

pub record BookingModifyRequest : Type 0 where
  pub pnr : String
  pub idempotency_key : String
  pub customer_confirmed : Bool
  pub new_flight_id : Option String
  pub new_contact_email : Option String
  pub new_contact_phone : Option String

-- An entry for a field that has a value.
abbrev change : String → Option String → Dict String
change name none = []
change name (some value) = (name, value) ∷ []

abbrev pub changes_of : BookingModifyRequest → Dict String
changes_of request =
    change "new_flight_id" (truthy_text request.new_flight_id)
    ++ (change "contact_email" (truthy_text request.new_contact_email)
        ++ change "contact_phone" (truthy_text request.new_contact_phone))

unfoldable pub modified : BookingModifyRequest → ProviderBooking → Booking → Booking
modified request updated b = record b {
  status = if is_some (truthy_text request.new_flight_id) then "MODIFIED" else b.status;
  origin = updated.origin;
  destination = updated.destination;
  flight_number = updated.flight_number;
  aircraft_type = updated.aircraft_type;
  departure_time = updated.departure_time;
  arrival_time = updated.arrival_time;
  total_price = updated.total_price;
  contact_email = updated.contact_email;
  contact_phone = updated.contact_phone;
}

module _ {A : Type 0} (airline : AirlineProvider A) (env : Env) where
  abbrev pub store_changes :
      BookingModifyRequest → Booking → ProviderBooking → Action (World A) Booking
  store_changes request booking updated = do
    modify (update_booking booking.id (modified request updated))
    modify (
        record_audit_event (
          audit env "booking.modified" "booking" booking.pnr
            (("changes", names (map (λ c. c.0) (changes_of request))) ∷ [])))
    commit_session
    pure (modified request updated booking)

  abbrev pub change_with_airline : BookingModifyRequest → Booking → Action (World A) Booking
  change_with_airline request booking = do
    updated ← call_provider (
        airline.update_booking booking.provider_booking_reference (changes_of request)
          request.idempotency_key)
    store_changes request booking updated

  abbrev no_changes : Dict String → Bool
  no_changes [] = true
  no_changes (c ∷ cs) = false

  abbrev pub modify_found : BookingModifyRequest → Booking → Action (World A) Booking
  modify_found request booking = do
    raise_if (booking.status == "CANCELLED") (validation_failed_error "BOOKING_NOT_MODIFIABLE")
    raise_if (no_changes (changes_of request)) (validation_failed_error "NO_CHANGES_SPECIFIED")
    undo_session (change_with_airline request booking)

  unfoldable pub modify_booking : BookingModifyRequest → Action (World A) Booking
  modify_booking request = do
    raise_if (not request.customer_confirmed) (validation_failed_error "CONFIRMATION_REQUIRED")
    booking ← find_booking request.pnr
    modify_found request booking
