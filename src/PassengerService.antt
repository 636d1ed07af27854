-- ===== src/PassengerService.antt =====
-- `PassengerService` of apps/api/app/services/passenger_service.py. The encryption of a passport's
-- number is an argument.
pub mod Kept
use vapivoiceassistant.Prelude.{
  ℕ, ◌≤◌, String, Bool, true, false, not, Option, none, some, List, [], ◌∷◌, ◌++◌, ◌==◌, find,
  length, leb, truthy_text, if◌then◌else◌,
}
use vapivoiceassistant.Prelude.Int.{ℤ}
use vapivoiceassistant.Errors.{
  Result, ok, err, Action, pure, raise, or_raise, validation_failed_error, not_found_error,
}
use vapivoiceassistant.Models.{Booking, BookingPassenger}
use vapivoiceassistant.Database.{Db, update_booking, record_audit_event}
use vapivoiceassistant.AirlineProvider.{AirlineProvider, ProviderBooking, PassengerInput}
use vapivoiceassistant.BookingService.{PassengerCreate, passenger_input}
use vapivoiceassistant.Services.{
  World, Env, audit, ◌>>=◌, ◌>>◌, raise_if, query, modify, commit_session, call_provider,
  find_booking,
}

abbrev pub new_passenger : String → PassengerCreate → PassengerInput → BookingPassenger
new_passenger id p registered = record {
  id = id;
  provider_passenger_id = registered.passenger_id;
  first_name = p.first_name;
  middle_name = p.middle_name;
  last_name = p.last_name;
  date_of_birth = p.date_of_birth;
  passenger_type = p.passenger_type;
  gender = p.gender;
  nationality = p.nationality;
  passport_number_encrypted = none;
  passport_country = none;
  passport_expiry = none;
  frequent_flyer_number = p.frequent_flyer_number;
  meal_preference = p.meal_preference;
  seat_preference = p.seat_preference;
  special_assistance = p.special_assistance;
}

unfoldable pub with_passenger : BookingPassenger → ℤ → Booking → Booking
with_passenger p total_price b = record b {
  passengers = b.passengers ++ (p ∷ []);
  total_price = total_price;
}

-- `booking.passengers.remove(target)`, of the first passenger with the id.
unfoldable pub drop_passenger : String → List BookingPassenger → List BookingPassenger
drop_passenger id [] = []
drop_passenger id (p ∷ ps) = let rest = drop_passenger id ps in if p.id == id then ps else p ∷ rest

unfoldable pub without_passenger : String → Booking → Booking
without_passenger id b = record b { passengers = drop_passenger id b.passengers }

abbrev pub set_total_price : ℤ → Booking → Booking
set_total_price total_price b = record b { total_price = total_price }

pub record PassportDetails : Type 0 where
  pub passport_number : String
  pub passport_country : String
  pub passport_expiry : String

abbrev pub with_passport : (String → String) → PassportDetails → BookingPassenger → BookingPassenger
with_passport encrypt passport p = record p {
  passport_number_encrypted = some (encrypt passport.passport_number);
  passport_country = some passport.passport_country;
  passport_expiry = some passport.passport_expiry;
}

-- The first passenger with the id is changed.
unfoldable pub change_passenger :
    String → (BookingPassenger → BookingPassenger) → List BookingPassenger → List BookingPassenger
change_passenger id f [] = []
change_passenger id f (p ∷ ps) =
    let rest = change_passenger id f ps in if p.id == id then f p ∷ ps else p ∷ rest

unfoldable pub change_passport : (String → String) → String → PassportDetails → Booking → Booking
change_passport encrypt id passport b = record b {
  passengers = change_passenger id (with_passport encrypt passport) b.passengers;
}

module _ {A : Type 0} (airline : AirlineProvider A) (env : Env) where
  -- `_get_active_booking`
  abbrev pub get_active_booking : String → Action (World A) Booking
  get_active_booking pnr = do
    booking ← find_booking pnr
    raise_if (booking.status == "CANCELLED") (validation_failed_error "BOOKING_NOT_MODIFIABLE")
    pure booking

  -- The audit row, without a request id, and the commit that end each method; the booking object is its changed row.
  abbrev pub finish : String → Booking → (Booking → Booking) → Action (World A) Booking
  finish action booking f = do
    modify (update_booking booking.id f)
    modify (
        record_audit_event
          (audit (record env { request_id = none }) action "booking" booking.pnr []))
    commit_session
    pure (f booking)

  abbrev pub register_passenger : PassengerCreate → Booking → Action (World A) Booking
  register_passenger passenger booking = do
    (updated, registered) ←
        call_provider
          (airline.add_passenger booking.provider_booking_reference (passenger_input passenger))
    finish "passenger.added" booking
        (with_passenger (new_passenger env.new_id passenger registered) updated.total_price)

  unfoldable pub add_passenger : String → PassengerCreate → Action (World A) Booking
  add_passenger pnr passenger = do
    booking ← get_active_booking pnr
    register_passenger passenger booking

  abbrev pub find_passenger : String → Booking → Option BookingPassenger
  find_passenger id booking = find (λ p. p.id == id) booking.passengers

  -- A passenger that the airline knows is removed there first, which gives the new price.
  abbrev pub remove_at_airline : Option String → Booking → Action (World A) ℤ
  remove_at_airline none booking = pure booking.total_price
  remove_at_airline (some id) booking = do
    updated ← call_provider (airline.remove_passenger booking.provider_booking_reference id)
    pure updated.total_price

  abbrev pub remove_found : String → Booking → BookingPassenger → Action (World A) Booking
  remove_found id booking target = do
    raise_if (leb (length booking.passengers) 1)
        (validation_failed_error "PASSENGER_VALIDATION_FAILED")
    total_price ← remove_at_airline (truthy_text target.provider_passenger_id) booking
    finish "passenger.removed" booking (λ b. without_passenger id (set_total_price total_price b))

  abbrev pub remove_active : String → Booking → Action (World A) Booking
  remove_active id booking = do
    target ← or_raise (find_passenger id booking) (not_found_error "PASSENGER_NOT_FOUND")
    remove_found id booking target

  unfoldable pub remove_passenger : String → String → Action (World A) Booking
  remove_passenger pnr booking_passenger_id = do
    booking ← get_active_booking pnr
    remove_active booking_passenger_id booking

  abbrev pub passport_active :
      (String → String) → String → PassportDetails → Booking → Action (World A) Booking
  passport_active encrypt id passport booking = do
    or_raise (find_passenger id booking) (not_found_error "PASSENGER_NOT_FOUND")
    finish "passenger.passport_updated" booking (change_passport encrypt id passport)

  unfoldable pub add_passport_details :
      (String → String) → String → String → PassportDetails → Action (World A) Booking
  add_passport_details encrypt pnr booking_passenger_id passport = do
    booking ← get_active_booking pnr
    passport_active encrypt booking_passenger_id passport booking
