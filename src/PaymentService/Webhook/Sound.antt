-- ===== src/PaymentService/Webhook/Sound.antt =====
-- What a webhook event does to the database and to the payment that it names.
use vapivoiceassistant.Prelude.{
  ℕ, String, ◌≡◌, refl, ap, true, false, Option, none, some, [], ◌∷◌, ◌==◌, arith, contains, join,
  truthy_text, holds, is_some, Bool-cases, Option-cases, inl, inr,
}
use vapivoiceassistant.Prelude.Dict.{Dict, lookup, lookup_elim}
use vapivoiceassistant.StateMachine.{
  booking_payment_status_for_session, relevant_webhook_event_types, can_transition, is_terminal,
  new_status_for_webhook_event,
}
use vapivoiceassistant.StateMachine.Lifecycle.{can_transition_terminal}
use vapivoiceassistant.Errors.{Error, Result, ok, err, or_raise, key_error, attribute_error}
use vapivoiceassistant.Models.{Booking, Payment}
use vapivoiceassistant.Database.{
  Db, commit, rollback, get_by_provider_session_id, get_booking_by_id, get_payment_by_id,
  update_booking, record_audit_event,
}
use vapivoiceassistant.Database.Rows.{IsConsistent}
use vapivoiceassistant.Database.Updates.{move-IsConsistent, KeepsFinal, update_payment-KeepsFinal}
use vapivoiceassistant.Idempotency.{StoredResult}
use vapivoiceassistant.Idempotency.Laws.{begin-remembers, complete-remembers, begin-known}
use vapivoiceassistant.PaymentProvider.{PaymentProvider, WebhookEvent}
use vapivoiceassistant.Services.{
  World, ◌>>=◌, ◌>>◌, query, modify, commit_session, begin_key, IsSound,
}
use vapivoiceassistant.Services.Outcomes.{
  After, Ensures, bind-Ensures, or_raise-Ensures, if-Ensures, or_undo-Ensures, weaken,
}
use vapivoiceassistant.PaymentService.Webhook.{
  dedup_key, lower, moved, record_move, finish, move_payment, apply_event, find_payment,
  match_payment, process_event, process_once, handle_event, handle_webhook_event,
}

open_of_transition : (s t : String) → can_transition s t ≡ true → is_terminal s ≡ false
open_of_transition s t allowed = elim (Bool-cases (is_terminal s)) [
  | inl final ↦ absurd (cc (can_transition_terminal s t final, allowed))
  | inr open_now ↦ open_now
]

-- A status that is not shown as in flight ends the life of the session.
terminal_unless_pending :
    (s booking_status : String)
    → lookup s booking_payment_status_for_session ≡ some booking_status
    → (booking_status == "PENDING") ≡ false
    → is_terminal s ≡ true
unfolding is_terminal contains
terminal_unless_pending s booking_status =
    lookup_elim (λ u v. (v == "PENDING") ≡ false → is_terminal u ≡ true)
      booking_payment_status_for_session s (ground arith)

module _ (now : ℕ) (event : WebhookEvent) where
  -- A payment that was found moves along, and its booking with it.
  record_move-IsConsistent :
      (d : Db) (payment : Payment) (booking : Booking) (new_status booking_status : String)
      (session_id : Option String)
      → IsConsistent d
      → find_payment session_id d ≡ some payment
      → can_transition payment.status new_status ≡ true
      → lookup new_status booking_payment_status_for_session ≡ some booking_status
      → IsConsistent (record_move now event payment booking new_status booking_status d)
  unfolding record_move record_audit_event moved get_by_provider_session_id
  record_move-IsConsistent d payment booking new_status booking_status none c found allowed shown =
      absurd (cc found)
  record_move-IsConsistent d payment booking new_status booking_status (some id) c found allowed
        shown =
      move-IsConsistent (λ p. holds p.provider_session_id id) d c found (moved now event new_status)
        (λ q. refl) (λ q. refl) new_status booking_status
        (open_of_transition payment.status new_status allowed) (λ q. refl)
        (terminal_unless_pending new_status booking_status shown)

  record_move-KeepsFinal :
      (d : Db) (payment : Payment) (booking : Booking) (new_status booking_status : String)
      (session_id : Option String)
      → IsConsistent d
      → find_payment session_id d ≡ some payment
      → can_transition payment.status new_status ≡ true
      → KeepsFinal d (record_move now event payment booking new_status booking_status d)
  unfolding record_move record_audit_event moved get_by_provider_session_id update_booking
      get_payment_by_id
  record_move-KeepsFinal d payment booking new_status booking_status none c found allowed =
      absurd (cc found)
  record_move-KeepsFinal d payment booking new_status booking_status (some id) c found allowed =
      update_payment-KeepsFinal (λ p. holds p.provider_session_id id) d (moved now event new_status)
        c.settled found (open_of_transition payment.status new_status allowed) (λ q. refl)

-- The event is remembered, so that a second delivery is seen to be one.
abbrev pub IsRemembered : {S : Type 0} → WebhookEvent → World S → Type 0
IsRemembered event w = is_some (lookup (dedup_key event) w.idempotency) ≡ true

module _ {S : Type 0} (now : ℕ) (event : WebhookEvent) (d0 d1 : Db) where
  -- What is known of the world until the payment is written.
  abbrev Before : World S → Type 0
  Before w = IsSound w × ((w.session.committed ≡ d0) × KeepsFinal d1 w.session.working)

  abbrev Done : World S → Type 0
  Done w = IsSound w × (IsRemembered event w × KeepsFinal d1 w.session.working)

  abbrev Refused : Error → World S → Type 0
  Refused _ = Before

  finish-Ensures :
      (result : Dict String) (outcome : String)
      → Ensures
          (λ w. IsSound w × KeepsFinal d1 w.session.working)
          (finish now event result outcome)
          (λ _. Done)
          Refused
  finish-Ensures result outcome = record {
    run = λ w p. (p.0, (complete-remembers (dedup_key event) result now w.idempotency, p.1));
  }

  -- The moved payment is looked for in the open transaction.
  abbrev Matched : Payment → World S → Type 0
  Matched payment w =
      Before w
      × (find_payment (truthy_text event.provider_session_id) w.session.working ≡ some payment)

  move_payment-Ensures :
      (payment : Payment) (new_status : String)
      → can_transition payment.status new_status ≡ true
      → Ensures (Matched payment) (move_payment now event payment new_status) (λ _. Done) Refused
  unfolding commit
  move_payment-Ensures payment new_status allowed =
      let shown = lookup new_status booking_payment_status_for_session in
      let transitioned = ("outcome", "transitioned") ∷ ("new_status", new_status) ∷ [] in
      let outcome = join "payment_" (lower new_status) in
      let written = λ (booking : Booking) (b : String) (w : World S).
        ((modify (record_move now event payment booking new_status b) >> commit_session) w).1 in
      let write = λ (booking : Booking) (booking_status : String).
        modify (record_move now event payment booking new_status booking_status)
        >> (commit_session >> finish now event transitioned outcome) in
      bind-Ensures (query (get_booking_by_id payment.booking_id))
        (λ found.
          or_raise found attribute_error >>= λ booking. or_raise shown key_error >>= write booking)
        (λ _. Matched payment) (record { run = λ w p. p })
        (λ found.
          bind-Ensures (or_raise found attribute_error)
            (λ booking. or_raise shown key_error >>= write booking) (λ _. Matched payment)
            (weaken (or_raise-Ensures found attribute_error (λ w _ p. p.0)) (λ w p. p)
              (λ a w q. q.1) (λ e w q. q))
            (λ booking.
              bind-Ensures (or_raise shown key_error) (write booking)
                (λ b w. (shown ≡ some b) × Matched payment w)
                (or_raise-Ensures shown key_error (λ w _ p. p.0))
                (λ b. record {
                  run = λ w p.
                      let c =
                        record_move-IsConsistent now event w.session.working payment booking
                          new_status b (truthy_text event.provider_session_id) p.1.0.0.1 p.1.1
                          allowed p.0 in
                      (finish-Ensures transitioned outcome).run (written booking b w) (
                        (c, c),
                        λ i q final there.
                            record_move-KeepsFinal now event w.session.working payment booking
                              new_status b (truthy_text event.provider_session_id) p.1.0.0.1 p.1.1
                              allowed i q final (p.1.0.1.1 i q final there),
                      );
                })))

  apply_event-Ensures :
      (payment : Payment) (new_status : Option String)
      → Ensures (Matched payment) (apply_event now event payment new_status) (λ _. Done) Refused
  apply_event-Ensures payment none =
      weaken (finish-Ensures (("outcome", "no_transition") ∷ []) "no_transition_needed")
        (λ w p. (p.0.0, p.0.1.1)) (λ a w q. q) (λ e w q. q)
  apply_event-Ensures payment (some new_status) =
      if-Ensures (can_transition payment.status new_status)
        (move_payment now event payment new_status)
        (finish now event (("outcome", "no_transition") ∷ []) "no_transition_needed")
        (move_payment-Ensures payment new_status)
        (λ _.
          weaken (finish-Ensures (("outcome", "no_transition") ∷ []) "no_transition_needed")
            (λ w p. (p.0.0, p.0.1.1)) (λ a w q. q) (λ e w q. q))

  match_payment-Ensures :
      (found : Option Payment)
      → Ensures
          (λ w.
            Before w
            × (find_payment (truthy_text event.provider_session_id) w.session.working ≡ found))
          (match_payment now event found)
          (λ _. Done)
          Refused
  unfolding commit record_audit_event get_payment_by_id
  match_payment-Ensures none = record {
    run = λ w p. (
      (p.0.0.1, p.0.0.1),
      (
        complete-remembers (dedup_key event) (("outcome", "unmatched_session") ∷ []) now
            w.idempotency,
        p.0.1.1,
      ),
    );
  }
  match_payment-Ensures (some payment) =
      apply_event-Ensures payment (new_status_for_webhook_event event.event_type event.payment_paid)

  process_event-Ensures : Ensures Before (process_event now event) (λ _. Done) Refused
  unfolding process_event
  process_event-Ensures =
      let find_it = query (find_payment (truthy_text event.provider_session_id)) in
      if-Ensures (contains event.event_type relevant_webhook_event_types)
        (find_it >>= match_payment now event)
        (finish now event (("outcome", "ignored_irrelevant_type") ∷ [])
          "ignored_irrelevant_event_type")
        (λ _.
          bind-Ensures find_it (match_payment now event)
            (λ found w.
              Before w
              × (find_payment (truthy_text event.provider_session_id) w.session.working ≡ found))
            (record { run = λ w p. (p, refl) }) match_payment-Ensures)
        (λ _.
          weaken
            (finish-Ensures (("outcome", "ignored_irrelevant_type") ∷ [])
              "ignored_irrelevant_event_type")
            (λ w p. (p.0, p.1.1)) (λ a w q. q) (λ e w q. q))

  process_once-Ensures :
      (seen : Option StoredResult)
      → Ensures
          (λ w. Before w × (is_some seen ≡ true → IsRemembered event w))
          (process_once now event seen)
          (λ _. Done)
          (λ _ w. IsSound w × (w.session.committed ≡ d0))
  unfolding rollback
  process_once-Ensures (some _) = record { run = λ w p. (p.0.0, (p.1 refl, p.0.1.1)) }
  process_once-Ensures none =
      or_undo-Ensures (dedup_key event) (process_event now event) Refused
        (weaken process_event-Ensures (λ w p. p.0) (λ a w q. q) (λ e w q. q))
        (λ e w p. ((p.0.0, p.0.0), p.1.0))

  handle_event-Ensures :
      Ensures Before
        (handle_event now event)
        (λ _. Done)
        (λ _ w. IsSound w × (w.session.committed ≡ d0))
  unfolding handle_event
  handle_event-Ensures =
      bind-Ensures (begin_key (dedup_key event) now) (process_once now event)
        (λ seen w. Before w × (is_some seen ≡ true → IsRemembered event w))
        (record {
          run = λ w p. (p, λ seen. begin-remembers (dedup_key event) now w.idempotency seen);
        })
        process_once-Ensures

-- Whatever the event, a consistent state stays consistent, payments that were at the end of their
-- lives are what they were, and the event is remembered; and when an exception is raised, what is
-- committed is what was committed before.
pub handle_event-After :
    {S : Type 0} (now : ℕ) (event : WebhookEvent) (w : World S)
    → IsSound w
    → After
        (λ _ w'.
          IsSound w' × (IsRemembered event w' × KeepsFinal w.session.working w'.session.working))
        (λ _ w'. IsSound w' × (w'.session.committed ≡ w.session.committed))
        (handle_event now event w)
handle_event-After now event w s =
    (handle_event-Ensures now event w.session.committed w.session.working).run w
      (s, (refl, λ id p final there. there))

-- An event that is remembered is ignored.
pub handle_event-repeated :
    {S : Type 0} (now : ℕ) (event : WebhookEvent) (w : World S)
    → IsRemembered event w
    → handle_event now event w ≡ (ok "duplicate_event_ignored", w)
unfolding handle_event
handle_event-repeated now event w h = elim (Option-cases (lookup (dedup_key event) w.idempotency)) [
  | inl unknown ↦ absurd (cc (rw unknown at h))
  | inr (r, known) ↦
      ap (λ x. process_once now event x.0 (record w { idempotency = x.1 }))
        (begin-known (dedup_key event) now w.idempotency known)
]

verified-After :
    {S : Type 0} (now : ℕ) (w : World S) (r : Result WebhookEvent)
    → IsSound w
    → After {A = String} {W = World S}
        (λ _ w'. IsSound w' × KeepsFinal w.session.working w'.session.working)
        (λ _ w'. IsSound w' × (w'.session.committed ≡ w.session.committed))
        (elim r [ err e ↦ (err e, w) | ok event ↦ handle_event now event w ])
verified-After now w (err e) s = (s, refl)
verified-After now w (ok event) s =
    (weaken (handle_event-Ensures now event w.session.committed w.session.working) (λ v p. p)
        (λ a v q. (q.0, q.1.1)) (λ e v q. q)).run
      w (s, (refl, λ id p final there. there))

-- Whatever arrives at the webhook, with a good signature or a bad one, a consistent state stays
-- consistent and no payment that was at the end of its life changes; and when an exception is
-- raised, nothing has been committed.
pub handle_webhook_event-After :
    {S : Type 0} (provider : PaymentProvider S) (now : ℕ) (raw_payload : String)
    (signature_header : Option String) (w : World S)
    → IsSound w
    → After
        (λ _ w'. IsSound w' × KeepsFinal w.session.working w'.session.working)
        (λ _ w'. IsSound w' × (w'.session.committed ≡ w.session.committed))
        (handle_webhook_event provider now raw_payload signature_header w)
unfolding handle_webhook_event
handle_webhook_event-After provider now raw_payload signature_header w s =
    verified-After now w (provider.verify_and_parse_webhook raw_payload signature_header) s
