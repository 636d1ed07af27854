-- ===== src/PaymentService/Webhook/Redelivered.antt =====
-- A webhook event that was handled is not handled again, whatever is delivered in between.
use vapivoiceassistant.Prelude.{
  ℕ, String, ◌≡◌, sym, subst, false, Option, none, some, List, [], ◌∷◌, ◌==◌, contains, join,
  truthy_text, eq_iff, Bool-cases, inl, inr,
}
use vapivoiceassistant.Prelude.Dict.{Dict, lookup}
use vapivoiceassistant.StateMachine.{
  booking_payment_status_for_session, relevant_webhook_event_types, can_transition,
  new_status_for_webhook_event,
}
use vapivoiceassistant.Errors.{Result, ok, err, or_raise, key_error, attribute_error}
use vapivoiceassistant.Models.{Booking, Payment}
use vapivoiceassistant.Database.{get_booking_by_id}
use vapivoiceassistant.Database.Updates.{KeepsFinal}
use vapivoiceassistant.Idempotency.{StoredResult, begin}
use vapivoiceassistant.Idempotency.Laws.{Knows, begin-Knows, complete-Knows, fail-Knows}
use vapivoiceassistant.PaymentProvider.{WebhookEvent}
use vapivoiceassistant.Services.{World, ◌>>=◌, ◌>>◌, modify, commit_session, IsSound, or_undo}
use vapivoiceassistant.Services.Outcomes.{After}
use vapivoiceassistant.PaymentService.Webhook.{
  dedup_key, lower, record_move, finish, apply_event, find_payment, match_payment, process_event,
  process_once, handle_event,
}
use vapivoiceassistant.PaymentService.Webhook.Sound.{
  IsRemembered, handle_event-After, handle_event-repeated,
}

module _ {S : Type 0} (k : String) (now : ℕ) (event : WebhookEvent) where
  -- The key is known in the state that a step leaves.
  abbrev Keeps : Result String × World S → Type 0
  Keeps x = Knows k x.1.idempotency

  moved-Keeps :
      (payment : Payment) (new_status : String) (found : Option Booking) (shown : Option String)
      (w : World S)
      → Knows k w.idempotency
      → Keeps (
          (or_raise found attribute_error >>= λ booking.
          or_raise shown key_error >>= λ booking_status.
          modify (record_move now event payment booking new_status booking_status)
          >> (commit_session
              >> finish now event
                  (("outcome", "transitioned") ∷ ("new_status", new_status) ∷ [])
                  (join "payment_" (lower new_status))))
            w)
  moved-Keeps payment new_status none shown w h = h
  moved-Keeps payment new_status (some booking) none w h = h
  moved-Keeps payment new_status (some booking) (some b) w h =
      complete-Knows k (dedup_key event)
        (("outcome", "transitioned") ∷ ("new_status", new_status) ∷ []) now w.idempotency h

  finish-Keeps :
      (result : Dict String) (outcome : String) (w : World S)
      → Knows k w.idempotency
      → Keeps (finish now event result outcome w)
  finish-Keeps result outcome w h = complete-Knows k (dedup_key event) result now w.idempotency h

  apply-Keeps :
      (payment : Payment) (new_status : Option String) (w : World S)
      → Knows k w.idempotency
      → Keeps (apply_event now event payment new_status w)
  apply-Keeps payment none w h =
      finish-Keeps (("outcome", "no_transition") ∷ []) "no_transition_needed" w h
  apply-Keeps payment (some s) w h = elim (Bool-cases (can_transition payment.status s)) [
    | inl allowed ↦ rw allowed (
        moved-Keeps payment s (get_booking_by_id payment.booking_id w.session.working)
          (lookup s booking_payment_status_for_session) w h)
    | inr refused ↦
        rw refused (finish-Keeps (("outcome", "no_transition") ∷ []) "no_transition_needed" w h)
  ]

  match-Keeps :
      (found : Option Payment) (w : World S)
      → Knows k w.idempotency
      → Keeps (match_payment now event found w)
  match-Keeps none w h =
      complete-Knows k (dedup_key event) (("outcome", "unmatched_session") ∷ []) now w.idempotency h
  match-Keeps (some payment) w h =
      apply-Keeps payment (new_status_for_webhook_event event.event_type event.payment_paid) w h

  process-Keeps : (w : World S) → Knows k w.idempotency → Keeps (process_event now event w)
  unfolding process_event
  process-Keeps w h = elim (Bool-cases (contains event.event_type relevant_webhook_event_types)) [
    | inl relevant ↦
        rw relevant
          (match-Keeps (find_payment (truthy_text event.provider_session_id) w.session.working) w h)
    | inr other ↦ rw other (
        finish-Keeps (("outcome", "ignored_irrelevant_type") ∷ []) "ignored_irrelevant_event_type" w
          h)
  ]

  undone-Keeps :
      (j : String) (x : Result String × World S)
      → (j == k) ≡ false
      → Keeps x
      → Keeps (or_undo j (λ _. x) x.1)
  undone-Keeps j (ok a, w) other h = h
  undone-Keeps j (err e, w) other h = fail-Knows k j w.idempotency other h

  once-Keeps :
      (seen : Option StoredResult) (w : World S)
      → (dedup_key event == k) ≡ false
      → Knows k w.idempotency
      → Keeps (process_once now event seen w)
  once-Keeps (some _) w other h = h
  once-Keeps none w other h =
      undone-Keeps (dedup_key event) (process_event now event w) other (process-Keeps w h)

  -- A key stays known, whatever event is handled: an event that fails frees no key but its own, and
  -- one whose key is known does not fail.
  handle_event-Keeps : (w : World S) → Knows k w.idempotency → Keeps (handle_event now event w)
  unfolding handle_event
  handle_event-Keeps w h = elim (Bool-cases (dedup_key event == k)) [
    | inl same ↦
        let own : Knows (dedup_key event) w.idempotency =
          subst (λ j. Knows j w.idempotency) (sym ((eq_iff (dedup_key event) k).0 same)) h in
        subst (λ x. Keeps x) (sym (handle_event-repeated now event w own)) h
    | inr other ↦
        let begun = begin (dedup_key event) now w.idempotency in
        once-Keeps begun.0 (record w { idempotency = begun.1 }) other
          (begin-Knows k (dedup_key event) now w.idempotency h)
  ]

-- Events, each at its time, one after the other, whether they are handled or raise.
abbrev pub deliver_all : {S : Type 0} → List (ℕ × WebhookEvent) → World S → World S
deliver_all [] w = w
deliver_all ((t, event) ∷ events) w = deliver_all events (handle_event t event w).1

deliver_all-IsRemembered :
    {S : Type 0} (event : WebhookEvent) (events : List (ℕ × WebhookEvent)) (w : World S)
    → IsRemembered event w
    → IsRemembered event (deliver_all events w)
deliver_all-IsRemembered event [] w h = h
deliver_all-IsRemembered event ((t, e) ∷ events) w h =
    deliver_all-IsRemembered event events (handle_event t e w).1
      (handle_event-Keeps (dedup_key event) t e w h)

-- In a consistent state an event is delivered and the call returns. Then any events are delivered,
-- handled or not, this one among them or not. When the event is delivered again, it is ignored, and
-- nothing changes.
pub handle_event-redelivered :
    {S : Type 0} (now later : ℕ) (event : WebhookEvent) (others : List (ℕ × WebhookEvent))
    (w : World S) {said : String} {w' : World S}
    → IsSound w
    → handle_event now event w ≡ (ok said, w')
    → handle_event later event (deliver_all others w')
      ≡ (ok "duplicate_event_ignored", deliver_all others w')
handle_event-redelivered {S} now later event others w {said} {w'} sound returned =
    let done =
      subst
        (λ x.
          After {A = String} {W = World S}
            (λ _ v.
              IsSound v × (IsRemembered event v × KeepsFinal w.session.working v.session.working))
            (λ _ v. IsSound v × (v.session.committed ≡ w.session.committed)) x)
        returned (handle_event-After now event w sound) in
    handle_event-repeated later event (deliver_all others w')
      (deliver_all-IsRemembered event others w' done.1.0)
