-- ===== src/StateMachine.antt =====
-- The payment session state machine: apps/api/app/core/payments/state_machine.py. Statuses and
-- event types are texts, as in the source, so that an unknown text takes the source's path.
pub mod Lifecycle
use vapivoiceassistant.Prelude.{
  String, Bool, false, Option, none, some, List, [], ◌∷◌, ◌==◌, contains, if◌then◌else◌,
}
use vapivoiceassistant.Prelude.Dict.{Dict, lookup}

abbrev pub payment_session_statuses : List String
payment_session_statuses =
    "PENDING" ∷ "PROCESSING" ∷ "SUCCEEDED" ∷ "FAILED" ∷ "EXPIRED" ∷ "CANCELED" ∷ []

abbrev pub terminal_payment_session_statuses : List String
terminal_payment_session_statuses = "SUCCEEDED" ∷ "FAILED" ∷ "EXPIRED" ∷ "CANCELED" ∷ []

abbrev pub allowed_transitions : Dict (List String)
allowed_transitions =
    ("PENDING", "PROCESSING" ∷ "SUCCEEDED" ∷ "FAILED" ∷ "EXPIRED" ∷ "CANCELED" ∷ [])
    ∷ ("PROCESSING", "SUCCEEDED" ∷ "FAILED" ∷ [])
    ∷ ("SUCCEEDED", [])
    ∷ ("FAILED", [])
    ∷ ("EXPIRED", [])
    ∷ ("CANCELED", [])
    ∷ []

-- `d.get(k, frozenset())`
abbrev or_empty : Option (List String) → List String
or_empty none = []
or_empty (some xs) = xs

unfoldable pub can_transition : String → String → Bool
unfolding lookup
can_transition current_status new_status =
    if contains new_status payment_session_statuses
    then contains new_status (or_empty (lookup current_status allowed_transitions))
    else false

unfoldable pub is_terminal : String → Bool
unfolding contains
is_terminal status = contains status terminal_payment_session_statuses

abbrev pub booking_payment_status_for_session : Dict String
booking_payment_status_for_session =
    ("PENDING", "PENDING")
    ∷ ("PROCESSING", "PENDING")
    ∷ ("SUCCEEDED", "PAID")
    ∷ ("FAILED", "FAILED")
    ∷ ("EXPIRED", "UNPAID")
    ∷ ("CANCELED", "UNPAID")
    ∷ []

abbrev pub booking_payment_statuses_blocking_new_session : List String
booking_payment_statuses_blocking_new_session = "PENDING" ∷ "PAID" ∷ "REFUNDED" ∷ []

abbrev pub relevant_webhook_event_types : List String
relevant_webhook_event_types =
    "checkout.session.completed" ∷ "checkout.session.expired"
    ∷ "checkout.session.async_payment_succeeded" ∷ "checkout.session.async_payment_failed" ∷ []

-- A flag that is missing (`None`) is not true.
abbrev pub truthy : Option Bool → Bool
truthy none = false
truthy (some b) = b

unfoldable pub new_status_for_webhook_event : String → Option Bool → Option String
new_status_for_webhook_event event_type payment_paid =
    if event_type == "checkout.session.completed"
    then some (if truthy payment_paid then "SUCCEEDED" else "PROCESSING")
    else if event_type == "checkout.session.async_payment_succeeded"
    then some "SUCCEEDED"
    else if event_type == "checkout.session.async_payment_failed"
    then some "FAILED"
    else if event_type == "checkout.session.expired"
    then some "EXPIRED"
    else none
