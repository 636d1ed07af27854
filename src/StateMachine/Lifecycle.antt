-- ===== src/StateMachine/Lifecycle.antt =====
-- The lifecycle of a payment session under state_machine.py: which statuses end it, how far a
-- session can move, and how its status agrees with that of its booking.
use vapivoiceassistant.Prelude.{
  ℕ, ◌+◌, ◌≤◌, String, ◌≡◌, ◌↔◌, ◌⊎◌, ◌==◌, refl, eq_iff, true, false, Option, some, arith,
  contains, contains-nil, contains_elim, is_some, Bool, length, if◌then◌else◌, List, [], ◌∷◌, inl,
  inr, subst, sym,
}
use vapivoiceassistant.Prelude.Dict.{lookup, lookup_elim}
use vapivoiceassistant.StateMachine.{
  payment_session_statuses, terminal_payment_session_statuses, can_transition, is_terminal,
  booking_payment_status_for_session, relevant_webhook_event_types, new_status_for_webhook_event,
}

-- A session whose status ends its life has no legal next status, whatever is asked for.
pub can_transition_terminal : (s t : String) → is_terminal s ≡ true → can_transition s t ≡ false
unfolding can_transition is_terminal
can_transition_terminal s t h =
    contains_elim (λ u. can_transition u t ≡ false) terminal_payment_session_statuses s
      (ground arith) h

-- The only legal moves.
pub can_transition_cases :
    (s t : String)
    → can_transition s t ≡ true
    → ((s ≡ "PENDING")
        × (contains t ("PROCESSING" ∷ "SUCCEEDED" ∷ "FAILED" ∷ "EXPIRED" ∷ "CANCELED" ∷ []) ≡ true))
      ⊎ ((s ≡ "PROCESSING") × (contains t ("SUCCEEDED" ∷ "FAILED" ∷ []) ≡ true))
unfolding can_transition
can_transition_cases s t h =
    ground (arith, eq_iff "PENDING" s, eq_iff "PROCESSING" s, contains-nil t)

-- A number that every legal move raises.
pub stage : String → ℕ
stage s = if s == "PENDING" then 0 else if s == "PROCESSING" then 1 else 2

stage-lt : (s t : String) → can_transition s t ≡ true → stage s + 1 ≤ stage t
unfolding stage
stage-lt s t h = elim (can_transition_cases s t h) [
  | inl (e, c) ↦ contains_elim (λ u. stage s + 1 ≤ stage u) _ t (rw e (ground arith)) c
  | inr (e, c) ↦ contains_elim (λ u. stage s + 1 ≤ stage u) _ t (rw e (ground arith)) c
]

-- A run of legal moves, with the statuses that it passes through after the first.
pub data Run : String → List String → Type 0 where
  stop : {s : String} → Run s []
  move : {s t : String} {ts : List String} → can_transition s t ≡ true → Run t ts → Run s (t ∷ ts)

stage-le_two : (s : String) → stage s ≤ 2
unfolding stage
stage-le_two s = ground arith

Run-stage : {s : String} {ts : List String} → Run s ts → stage s + length ts ≤ 2
Run-stage {s} stop = omega (arith, stage-le_two s)
Run-stage {s} (move {t = t} h r) = omega (arith, stage-lt s t h, Run-stage r)

-- However the events come, a payment session changes its status at most twice.
pub length-Run-le : {s : String} {ts : List String} → Run s ts → length ts ≤ 2
length-Run-le {s} r = omega (arith, Run-stage r)

-- A session's status is one of the six, and it is not at the end of its life, exactly when the
-- booking is shown as having a payment in flight.
pub open_iff_booking_pending :
    (s : String)
    → ((contains s payment_session_statuses ≡ true) × (is_terminal s ≡ false))
      ↔ (lookup s booking_payment_status_for_session ≡ some "PENDING")
unfolding is_terminal lookup contains
open_iff_booking_pending s = (
  λ (k, o).
      contains_elim
        (λ u. is_terminal u ≡ false → lookup u booking_payment_status_for_session ≡ some "PENDING")
        payment_session_statuses s (ground arith) k o,
  λ h.
      lookup_elim
        (λ u v.
          v ≡ "PENDING" → (contains u payment_session_statuses ≡ true) × (is_terminal u ≡ false))
        booking_payment_status_for_session s
        (ground
          (arith, eq_iff "PAID" "PENDING", eq_iff "FAILED" "PENDING", eq_iff "UNPAID" "PENDING"))
        h refl,
)

-- Every event type that the webhook acts on gives a status to which an open session may move, and
-- no other type gives a status.
pub new_status_for_webhook_event_lem :
    (e : String) (paid : Option Bool)
    → is_some (new_status_for_webhook_event e paid) ≡ contains e relevant_webhook_event_types
unfolding new_status_for_webhook_event contains
new_status_for_webhook_event_lem e paid = ground arith

new_status_cases :
    (e : String) (paid : Option Bool) {t : String}
    → new_status_for_webhook_event e paid ≡ some t
    → (t ≡ "SUCCEEDED") ⊎ ((t ≡ "PROCESSING") ⊎ ((t ≡ "FAILED") ⊎ (t ≡ "EXPIRED")))
unfolding new_status_for_webhook_event
new_status_cases e paid h = ground arith

-- What holds of the four statuses that events give holds of the status that an event gave.
pub new_status_elim {ℓ} :
    (P : String → Type ℓ) (e : String) (paid : Option Bool) {t : String}
    → P "SUCCEEDED" × (P "PROCESSING" × (P "FAILED" × P "EXPIRED"))
    → new_status_for_webhook_event e paid ≡ some t
    → P t
new_status_elim P e paid p h = elim (new_status_cases e paid h) [
  | inl e ↦ subst P (sym e) p.0
  | inr (inl e) ↦ subst P (sym e) p.1.0
  | inr (inr (inl e)) ↦ subst P (sym e) p.1.1.0
  | inr (inr (inr e)) ↦ subst P (sym e) p.1.1.1
]

-- An open session may take any status that an event gives it.
pub can_transition-new_status :
    (e : String) (paid : Option Bool) {t : String}
    → new_status_for_webhook_event e paid ≡ some t
    → can_transition "PENDING" t ≡ true
unfolding can_transition contains
can_transition-new_status e paid =
    new_status_elim (λ t. can_transition "PENDING" t ≡ true) e paid (ground arith)
