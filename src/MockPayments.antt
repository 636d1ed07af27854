-- ===== src/MockPayments.antt =====
-- `MockPaymentProvider` of apps/api/app/providers/payments/mock.py. The first 24 digits of the
-- SHA-256 digest of a key are an argument. Parsing the JSON of a webhook is not modelled.
pub mod Ledger
use vapivoiceassistant.Prelude.{
  ℕ, ◌+◌, String, Bool, true, false, not, Option, none, some, List, [], ◌∷◌, ◌==◌, join, holds,
  find, map, if◌then◌else◌,
}
use vapivoiceassistant.Prelude.Int.{ℤ, pos, ◌+ℤ◌, ltb_ℤ}
use vapivoiceassistant.Prelude.Dict.{Dict, lookup, insert}
use vapivoiceassistant.Errors.{Error, Result, ok, err, Action, payment_provider_error, key_error}
use vapivoiceassistant.PaymentProvider.{
  CheckoutSession, CheckoutSessionStatus, is_open, complete, expired, PaymentStatusResult,
  RefundResult, succeeded,
}

-- `_MockSession`
pub record MockSession : Type 0 where
  pub provider_session_id : String
  pub amount : ℤ
  pub currency : String
  pub status : CheckoutSessionStatus
  pub payment_paid : Bool
  pub payment_intent_id : Option String
  pub expires_at : ℕ
  pub refunded_amount : ℤ

pub record MockPayments : Type 0 where
  pub by_idempotency_key : Dict String
  pub sessions : Dict MockSession
  pub refunds : Dict RefundResult

-- `MockPaymentProvider()`
unfoldable pub no_payments : MockPayments
no_payments = record { by_idempotency_key = []; sessions = []; refunds = [] }

abbrev pub checkout_of : MockSession → CheckoutSession
checkout_of s = record {
  provider_session_id = s.provider_session_id;
  checkout_url = join "https://mock-checkout.charter123.test/" s.provider_session_id;
  status = s.status;
  amount = s.amount;
  currency = s.currency;
  expires_at = s.expires_at;
  payment_intent_id = s.payment_intent_id;
}

abbrev pub day : ℕ
day = 86400

abbrev pub opened : String → ℤ → String → ℕ → MockSession
opened session_id amount currency now = record {
  provider_session_id = session_id;
  amount = amount;
  currency = currency;
  status = is_open;
  payment_paid = false;
  payment_intent_id = none;
  expires_at = now + day;
  refunded_amount = pos 0;
}

-- `self._sessions[id]` of a method that reads it.
abbrev pub read_session : Option MockSession → Action MockPayments CheckoutSession
read_session none m = (err key_error, m)
read_session (some s) m = (ok (checkout_of s), m)

abbrev pub refunded_by : ℤ → MockSession → MockSession
refunded_by amount s = record s { refunded_amount = s.refunded_amount +ℤ amount }

-- A change of the session object that is stored at the key.
unfoldable pub change_session :
    String → (MockSession → MockSession) → Dict MockSession → Dict MockSession
change_session key f [] = []
change_session key f ((k, s) ∷ d) =
    let rest = change_session key f d in if k == key then (k, f s) ∷ rest else (k, s) ∷ rest

-- The first session with the payment intent, and a change of that object.
unfoldable pub session_with_intent : String → Dict MockSession → Option MockSession
session_with_intent intent [] = none
session_with_intent intent ((k, s) ∷ d) =
    if holds s.payment_intent_id intent then some s else session_with_intent intent d

unfoldable pub change_with_intent :
    String → (MockSession → MockSession) → Dict MockSession → Dict MockSession
change_with_intent intent f [] = []
change_with_intent intent f ((k, s) ∷ d) =
    let rest = change_with_intent intent f d in
    if holds s.payment_intent_id intent then (k, f s) ∷ d else (k, s) ∷ rest

abbrev refund_rejected : Error
refund_rejected = payment_provider_error "PAYMENT_REFUND_FAILED"

module _ (digest24 : String → String) where
  abbrev pub session_id_for : String → String
  session_id_for idempotency_key = join "mock_cs_" (digest24 idempotency_key)

  abbrev pub open_new : ℤ → String → String → ℕ → Action MockPayments CheckoutSession
  open_new amount currency idempotency_key now m =
      let session_id = session_id_for idempotency_key in
      let session = opened session_id amount currency now in
      (
        ok (checkout_of session),
        record m {
          sessions = insert session_id session m.sessions;
          by_idempotency_key = insert idempotency_key session_id m.by_idempotency_key;
        },
      )

  abbrev pub open_or_read :
      Option String → ℤ → String → String → ℕ → Action MockPayments CheckoutSession
  open_or_read (some existing_id) amount currency idempotency_key now m =
      read_session (lookup existing_id m.sessions) m
  open_or_read none amount currency idempotency_key now m =
      open_new amount currency idempotency_key now m

  unfoldable pub create_checkout_session :
      ℤ → String → String → ℕ → Action MockPayments CheckoutSession
  create_checkout_session amount currency idempotency_key now m =
      open_or_read (lookup idempotency_key m.by_idempotency_key) amount currency idempotency_key now
        m

  abbrev pub refund_result : ℤ → String → String → RefundResult
  refund_result amount currency idempotency_key = record {
    provider_refund_id = join "mock_re_" (digest24 idempotency_key);
    status = succeeded;
    amount = amount;
    currency = currency;
  }

  abbrev pub refund_session :
      Option MockSession → String → ℤ → String → String → Action MockPayments RefundResult
  refund_session none intent amount currency idempotency_key m = (err refund_rejected, m)
  refund_session (some session) intent amount currency idempotency_key m =
      if not session.payment_paid
      then (err refund_rejected, m)
      else if ltb_ℤ session.amount (session.refunded_amount +ℤ amount)
      then (err refund_rejected, m)
      else (
        ok (refund_result amount currency idempotency_key),
        record m {
          sessions = change_with_intent intent (refunded_by amount) m.sessions;
          refunds =
              insert idempotency_key (refund_result amount currency idempotency_key) m.refunds;
        },
      )

  abbrev pub refund_once :
      Option RefundResult → String → ℤ → String → String → Action MockPayments RefundResult
  refund_once (some existing) intent amount currency idempotency_key m = (ok existing, m)
  refund_once none intent amount currency idempotency_key m =
      refund_session (session_with_intent intent m.sessions) intent amount currency idempotency_key
        m

  unfoldable pub refund_payment : String → ℤ → String → String → Action MockPayments RefundResult
  refund_payment intent amount currency idempotency_key m =
      refund_once (lookup idempotency_key m.refunds) intent amount currency idempotency_key m

abbrev status_of : MockSession → PaymentStatusResult
status_of s = record {
  provider_session_id = s.provider_session_id;
  status = s.status;
  payment_paid = s.payment_paid;
  payment_intent_id = s.payment_intent_id;
  amount = s.amount;
  currency = s.currency;
}

unfoldable pub get_session_status : String → Action MockPayments PaymentStatusResult
get_session_status provider_session_id m = elim (lookup provider_session_id m.sessions) [
  | none ↦ (err (payment_provider_error "PAYMENT_SESSION_NOT_FOUND"), m)
  | some s ↦ (ok (status_of s), m)
]

-- `s = self._sessions[id]` and a change of `s`.
abbrev pub change_found :
    Option MockSession → String → (MockSession → MockSession) → Action MockPayments (Unit {0})
change_found none provider_session_id f m = (err key_error, m)
change_found (some _) provider_session_id f m =
    (ok tt, record m { sessions = change_session provider_session_id f m.sessions })

abbrev pub change_known : String → (MockSession → MockSession) → Action MockPayments (Unit {0})
change_known provider_session_id f m =
    change_found (lookup provider_session_id m.sessions) provider_session_id f m

unfoldable pub simulate_completion : String → Bool → String → Action MockPayments (Unit {0})
simulate_completion provider_session_id paid payment_intent_id =
    change_known provider_session_id (λ s. record s {
      status = complete;
      payment_paid = paid;
      payment_intent_id = some payment_intent_id;
    })

unfoldable pub simulate_expiry : String → Action MockPayments (Unit {0})
simulate_expiry provider_session_id =
    change_known provider_session_id (λ s. record s { status = expired })
