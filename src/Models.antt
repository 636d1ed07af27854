-- ===== src/Models.antt =====
-- The rows of the database: apps/api/app/models/booking.py, payment.py, audit_log.py and
-- tool_execution.py. Amounts are integers in minor units (the columns are `Numeric(10, 2)`), times are numbers of seconds, ids
-- are texts.
use vapivoiceassistant.Prelude.{ℕ, String, Option, List}
use vapivoiceassistant.Prelude.Int.{ℤ}
use vapivoiceassistant.Prelude.Dict.{Dict}
use vapivoiceassistant.Vapi.Json.{Fields}

pub record BookingPassenger : Type 0 where
  pub id : String
  pub provider_passenger_id : Option String
  pub first_name : String
  pub middle_name : Option String
  pub last_name : String
  pub date_of_birth : Option String
  pub passenger_type : String
  pub gender : Option String
  pub nationality : Option String
  pub passport_number_encrypted : Option String
  pub passport_country : Option String
  pub passport_expiry : Option String
  pub frequent_flyer_number : Option String
  pub meal_preference : Option String
  pub seat_preference : Option String
  pub special_assistance : Option String

pub record Booking : Type 0 where
  pub id : String
  pub pnr : String
  pub provider_booking_reference : Option String
  pub provider_name : String
  pub status : String
  pub payment_status : String
  pub customer_id : String
  pub origin : String
  pub destination : String
  pub flight_number : String
  pub aircraft_type : String
  pub departure_time : ℕ
  pub arrival_time : ℕ
  pub currency : String
  pub base_fare : ℤ
  pub tax : ℤ
  pub fees : ℤ
  pub total_price : ℤ
  pub cancellation_deadline : Option ℕ
  pub contact_email : String
  pub contact_phone : String
  pub passengers : List BookingPassenger
  pub updated_at : ℕ

pub record Customer : Type 0 where
  pub id : String
  pub email : Option String
  pub phone : Option String

pub record Payment : Type 0 where
  pub id : String
  pub booking_id : String
  pub customer_id : String
  pub provider_name : String
  pub provider_session_id : Option String
  pub provider_payment_intent_id : Option String
  pub status : String
  pub amount : ℤ
  pub currency : String
  pub idempotency_key : String
  pub checkout_url : Option String
  pub expires_at : Option ℕ
  pub completed_at : Option ℕ
  pub failure_code : Option String
  pub failure_message : Option String
  pub provider_refund_id : Option String
  pub refunded_amount : Option ℤ
  pub refund_status : Option String
  pub refunded_at : Option ℕ
  pub refund_reason : Option String

-- A value in the metadata of an audit row.
pub data MetaValue : Type 0 where
  text : String → MetaValue
  amount : ℤ → MetaValue
  names : List String → MetaValue

pub record AuditLog : Type 0 where
  pub actor : String
  pub actor_type : String
  pub action : String
  pub resource : String
  pub resource_id : Option String
  pub request_id : Option String
  pub call_id : Option String
  pub event_metadata : Dict MetaValue

-- What the voice assistant attempted, and what came of it (models/tool_execution.py).
pub record ToolExecution : Type 0 where
  pub call_id : String
  pub vapi_tool_call_id : String
  pub tool_name : String
  pub arguments_redacted : Fields
  pub authorization_result : String
  pub denial_reason : Option String
  pub outcome : Option String
  pub error_code : Option String
  pub idempotency_key : Option String
