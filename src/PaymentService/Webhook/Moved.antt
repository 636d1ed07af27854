-- ===== src/PaymentService/Webhook/Moved.antt =====
-- What a webhook event does to the rows of the payment that it names and of its booking.
use mathlib.Core.Option.{some-injective}
use vapivoiceassistant.Prelude.{
  ℕ, String, ◌≡◌, refl, sym, subst, ap, ◌∙◌, Bool, true, Option, none, some, List, [], ◌∷◌, ◌==◌,
  arith, contains, join, truthy_text, holds, or_default, find, eq_refl, Bool-cases, inl, inr,
  if◌then◌else◌,
}
use vapivoiceassistant.Prelude.Dict.{lookup}
use vapivoiceassistant.StateMachine.{
  booking_payment_status_for_session, relevant_webhook_event_types, can_transition,
  new_status_for_webhook_event,
}
use vapivoiceassistant.Errors.{Result, ok, Action}
use vapivoiceassistant.Models.{Booking, Payment}
use vapivoiceassistant.Database.{
  Db, commit, get_booking_by_id, get_by_provider_session_id, update_rows, update_payment_rows,
  update_booking, update_payment, set_payment_status, record_audit_event,
}
use vapivoiceassistant.Idempotency.{begin}
use vapivoiceassistant.Idempotency.Laws.{begin-lookup}
use vapivoiceassistant.PaymentProvider.{WebhookEvent}
use vapivoiceassistant.Services.{World, or_undo}
use vapivoiceassistant.PaymentService.Webhook.{
  dedup_key, lower, moved, record_move, move_payment, find_payment, process_event, handle_event,
}

-- The search finds the changed row where it found the row, if the change does not touch what is
-- searched for.
find-update_payment_rows :
    (cond : Payment → Bool) (id : String) (f : Payment → Payment) (ps : List Payment) {p : Payment}
    → ((q : Payment) → cond (f q) ≡ cond q)
    → (p.id == id) ≡ true
    → find cond ps ≡ some p
    → find cond (update_payment_rows id f ps) ≡ some (f p)
unfolding update_payment_rows
find-update_payment_rows cond id f [] same own e = absurd (cc e)
find-update_payment_rows cond id f (q ∷ qs) {p} same own e = elim (Bool-cases (cond q)) [
  | inl hit ↦
      let found : q ≡ p = some-injective q p (rw hit at e) in
      subst
        (λ r.
          find cond ((if q.id == id then f q else q) ∷ update_payment_rows id f qs) ≡ some (f r))
        found (rw (subst (λ (r : Payment). (r.id == id) ≡ true) (sym found) own, same q, hit) refl)
  | inr miss ↦
      let rest : find cond qs ≡ some p = rw miss at e in
      let later = find-update_payment_rows cond id f qs same own rest in
      let other = same q ∙ miss in ground arith
]

find-update_rows :
    (id : String) (f : Booking → Booking) (bs : List Booking) {b : Booking}
    → ((c : Booking) → (f c).id ≡ c.id)
    → find (λ c. c.id == id) bs ≡ some b
    → find (λ c. c.id == id) (update_rows id f bs) ≡ some (f b)
unfolding update_rows
find-update_rows id f [] same e = absurd (cc e)
find-update_rows id f (c ∷ cs) {b} same e = elim (Bool-cases (c.id == id)) [
  | inl hit ↦
      let found : some c ≡ some b = rw hit at e in
      let mine : ((f c).id == id) ≡ true = subst (λ j. (j == id) ≡ true) (sym (same c)) hit in
      rw (hit, mine) (ap (λ a. some (f a)) (some-injective c b found))
  | inr miss ↦
      let rest : find (λ a. a.id == id) cs ≡ some b = rw miss at e in
      rw (miss, miss) (find-update_rows id f cs same rest)
]

relevant_of :
    (event_type : String) (payment_paid : Option Bool) (new_status : String)
    → new_status_for_webhook_event event_type payment_paid ≡ some new_status
    → contains event_type relevant_webhook_event_types ≡ true
unfolding new_status_for_webhook_event contains
relevant_of event_type payment_paid new_status says = ground arith

find_payment-record_move :
    (now : ℕ) (event : WebhookEvent) (payment : Payment) (booking : Booking)
    (new_status booking_status : String) (id : Option String) (d : Db)
    → find_payment id d ≡ some payment
    → find_payment id (record_move now event payment booking new_status booking_status d)
      ≡ some (moved now event new_status payment)
unfolding record_move moved record_audit_event update_booking update_payment
    get_by_provider_session_id
find_payment-record_move now event payment booking new_status booking_status none d e =
    absurd (cc e)
find_payment-record_move now event payment booking new_status booking_status (some id) d e =
    find-update_payment_rows (λ p. holds p.provider_session_id id) payment.id
      (moved now event new_status) d.payments (λ q. refl) (eq_refl payment.id) e

get_booking_by_id-record_move :
    (now : ℕ) (event : WebhookEvent) (payment : Payment) (booking : Booking)
    (new_status booking_status : String) (d : Db)
    → get_booking_by_id payment.booking_id d ≡ some booking
    → get_booking_by_id payment.booking_id
        (record_move now event payment booking new_status booking_status d)
      ≡ some (set_payment_status booking_status booking)
unfolding record_move record_audit_event update_booking update_payment get_booking_by_id
get_booking_by_id-record_move now event payment booking new_status booking_status d e =
    find-update_rows payment.booking_id (set_payment_status booking_status) d.bookings (λ c. refl) e

module _ {S : Type 0} (now : ℕ) (event : WebhookEvent) (payment : Payment) (booking : Booking)
    (new_status booking_status : String) where
  -- The call says that the payment has its new status, and the change is committed.
  abbrev Moves : Db → Result String × World S → Type 0
  Moves d r =
      (r.0 ≡ ok (join "payment_" (lower new_status)))
      × (r.1.session.committed ≡ record_move now event payment booking new_status booking_status d)

  move_payment-Moves :
      (w : World S)
      → get_booking_by_id payment.booking_id w.session.working ≡ some booking
      → lookup new_status booking_payment_status_for_session ≡ some booking_status
      → Moves w.session.working (move_payment now event payment new_status w)
  unfolding commit
  move_payment-Moves w known shown = rw (known, shown) (refl, refl)

  process_event-Moves :
      (w : World S)
      → contains event.event_type relevant_webhook_event_types ≡ true
      → find_payment (truthy_text event.provider_session_id) w.session.working ≡ some payment
      → new_status_for_webhook_event event.event_type event.payment_paid ≡ some new_status
      → can_transition payment.status new_status ≡ true
      → get_booking_by_id payment.booking_id w.session.working ≡ some booking
      → lookup new_status booking_payment_status_for_session ≡ some booking_status
      → Moves w.session.working (process_event now event w)
  unfolding process_event
  process_event-Moves w relevant named says allowed known shown =
      rw (relevant, named, says, allowed) (move_payment-Moves w known shown)

  or_undo-Moves :
      (key : String) (d : Db) (m : Action (World S) String) (w : World S)
      → Moves d (m w)
      → Moves d (or_undo key m w)
  or_undo-Moves key d m w (said, stored) = rw (said, or_undo) (refl, stored)

-- An event is delivered that was not seen before. It names a payment whose booking exists, and it
-- gives a status that the payment may take. Then the call succeeds, and its booking is committed
-- with the payment status that belongs to the new one, and nothing else changed. The payment is
-- committed with the new status, the payment intent of the event if it has one, the time if it has
-- succeeded, and the code and the message of the failure if it has failed; it keeps all else.
pub handle_event_moves :
    {S : Type 0} (now : ℕ) (event : WebhookEvent) (payment : Payment) (booking : Booking)
    (new_status booking_status : String) (w : World S)
    → lookup (dedup_key event) w.idempotency ≡ none
    → find_payment (truthy_text event.provider_session_id) w.session.working ≡ some payment
    → get_booking_by_id payment.booking_id w.session.working ≡ some booking
    → new_status_for_webhook_event event.event_type event.payment_paid ≡ some new_status
    → can_transition payment.status new_status ≡ true
    → lookup new_status booking_payment_status_for_session ≡ some booking_status
    → let r = handle_event now event w in
      let after = r.1.session.committed in
      (r.0 ≡ ok (join "payment_" (lower new_status)))
      × ((find_payment (truthy_text event.provider_session_id) after
            ≡ some (record payment {
              status = new_status;
              provider_payment_intent_id = elim (truthy_text event.payment_intent_id) [
                | none ↦ payment.provider_payment_intent_id
                | some intent ↦ some intent
              ];
              completed_at = if new_status == "SUCCEEDED" then some now else payment.completed_at;
              failure_code =
                  if new_status == "FAILED"
                  then some (or_default event.failure_code "payment_failed")
                  else payment.failure_code;
              failure_message =
                  if new_status == "FAILED"
                  then some
                      (or_default event.failure_message "The payment method could not be charged.")
                  else payment.failure_message;
            }))
          × (get_booking_by_id payment.booking_id after
              ≡ some (record booking { payment_status = booking_status })))
unfolding handle_event moved
handle_event_moves now event payment booking new_status booking_status w fresh named known says
      allowed shown =
    let key = dedup_key event in
    let begun = begin key now w.idempotency in
    let relevant = relevant_of event.event_type event.payment_paid new_status says in
    let (said, stored) =
      or_undo-Moves now event payment booking new_status booking_status key w.session.working
        (process_event now event) (record w { idempotency = begun.1 })
        (process_event-Moves now event payment booking new_status booking_status
          (record w { idempotency = begun.1 }) relevant named says allowed known shown) in
    rw (begin-lookup key now w.idempotency ∙ fresh, said, stored)
      (
        refl,
        (
          find_payment-record_move now event payment booking new_status booking_status
              (truthy_text event.provider_session_id) w.session.working named,
          get_booking_by_id-record_move now event payment booking new_status booking_status
              w.session.working known,
        ),
      )
