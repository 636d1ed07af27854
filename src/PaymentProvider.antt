-- ===== src/PaymentProvider.antt =====
-- The provider-agnostic interface to payments: apps/api/app/providers/payments/base.py. What backs
-- it (Stripe, or the mock) is an argument of the services that use it, with a state of its own.
use vapivoiceassistant.Prelude.{ℕ, String, Bool, Option}
use vapivoiceassistant.Prelude.Int.{ℤ}
use vapivoiceassistant.Errors.{Result, Action}

pub data CheckoutSessionStatus : Type 0 where
  is_open complete expired : CheckoutSessionStatus

pub record CheckoutSession : Type 0 where
  pub provider_session_id : String
  pub checkout_url : String
  pub status : CheckoutSessionStatus
  pub amount : ℤ
  pub currency : String
  pub expires_at : ℕ
  pub payment_intent_id : Option String

pub record PaymentStatusResult : Type 0 where
  pub provider_session_id : String
  pub status : CheckoutSessionStatus
  pub payment_paid : Bool
  pub payment_intent_id : Option String
  pub amount : ℤ
  pub currency : String

pub data RefundStatus : Type 0 where
  pending requires_action succeeded failed canceled : RefundStatus

-- `status.value`
abbrev pub refund_status_value : RefundStatus → String
refund_status_value pending = "pending"
refund_status_value requires_action = "requires_action"
refund_status_value succeeded = "succeeded"
refund_status_value failed = "failed"
refund_status_value canceled = "canceled"

pub record RefundResult : Type 0 where
  pub provider_refund_id : String
  pub status : RefundStatus
  pub amount : ℤ
  pub currency : String

pub record WebhookEvent : Type 0 where
  pub event_id : String
  pub event_type : String
  pub provider_session_id : Option String
  pub payment_intent_id : Option String
  pub payment_paid : Option Bool
  pub failure_code : Option String
  pub failure_message : Option String

-- The arguments of `create_checkout_session` are the reference, the amount, the currency and the
-- idempotency key; those of `refund_payment` the payment intent, the amount, the currency, the
-- idempotency key and the reason.
pub record PaymentProvider (S : Type 0) : Type 0 where
  pub name : String
  pub create_checkout_session : String → ℤ → String → String → Action S CheckoutSession
  pub get_session_status : String → Action S PaymentStatusResult
  pub refund_payment : String → ℤ → String → String → Option String → Action S RefundResult
  pub verify_and_parse_webhook : String → Option String → Result WebhookEvent
