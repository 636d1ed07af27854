-- ===== src/AirlineProvider.antt =====
-- The provider-agnostic interface to airlines: apps/api/app/providers/airline/base.py. What backs it
-- (a GDS, or the mock) is an argument of the services that use it, with a state of its own.
use vapivoiceassistant.Prelude.{ℕ, String, Bool, Option, List}
use vapivoiceassistant.Prelude.Int.{ℤ}
use vapivoiceassistant.Prelude.Dict.{Dict}
use vapivoiceassistant.Errors.{Action}

pub data CabinClass : Type 0 where
  economy premium_economy business first charter : CabinClass

pub data ProviderBookingStatus : Type 0 where
  held confirmed ticketed cancelled modified failed : ProviderBookingStatus

pub record PassengerInput : Type 0 where
  pub first_name : String
  pub last_name : String
  pub date_of_birth : Option String
  pub passenger_type : String
  pub passenger_id : Option String

pub record ProviderBooking : Type 0 where
  pub provider_booking_reference : String
  pub status : ProviderBookingStatus
  pub flight_id : String
  pub flight_number : String
  pub origin : String
  pub destination : String
  pub departure_time : ℕ
  pub arrival_time : ℕ
  pub aircraft_type : String
  pub passengers : List PassengerInput
  pub contact_email : String
  pub contact_phone : String
  pub total_price : ℤ
  pub currency : String
  pub created_at : ℕ
  pub updated_at : ℕ

pub record CancellationPolicy : Type 0 where
  pub provider_booking_reference : String
  pub refundable_amount : ℤ
  pub cancellation_fee : ℤ
  pub non_refundable_amount : ℤ
  pub currency : String
  pub deadline : ℕ
  pub already_cancelled : Bool

pub record CancellationResult : Type 0 where
  pub provider_booking_reference : String
  pub status : ProviderBookingStatus
  pub refundable_amount : ℤ
  pub cancellation_fee : ℤ
  pub currency : String
  pub already_cancelled : Bool

-- The methods that the booking, cancellation and passenger services call. A booking's reference may
-- be missing.
pub record AirlineProvider (A : Type 0) : Type 0 where
  pub create_booking :
      String → List PassengerInput → String → String → String → Action A ProviderBooking
  pub update_booking : Option String → Dict String → String → Action A ProviderBooking
  pub cancel_booking : Option String → String → Action A CancellationResult
  pub get_cancellation_policy : Option String → Action A CancellationPolicy
  -- the passenger's id is set by the provider on the object it is given
  pub add_passenger : Option String → PassengerInput → Action A (ProviderBooking × PassengerInput)
  pub remove_passenger : Option String → String → Action A ProviderBooking
