-- ===== src/PaymentService/Create/Consistent.antt =====
-- What `create_payment_session` does to the database, on every branch.
use vapivoiceassistant.Prelude.{
  ◌≡◌, refl, sym, false, Option, none, some, [], ◌∷◌, arith, subst, eq_iff,
}
use vapivoiceassistant.Errors.{Error, Result, ok, err, ok-injective, pure}
use vapivoiceassistant.Models.{Booking, Payment}
use vapivoiceassistant.StateMachine.{is_terminal}
use vapivoiceassistant.Database.{
  Db, commit, get_open_for_booking, add_payment, update_booking, record_audit_event,
  set_payment_status,
}
use vapivoiceassistant.Database.Rows.{
  IsConsistent, AllTerminal, add_payment-IsConsistent, add_payment-ok,
}
use vapivoiceassistant.PaymentProvider.{PaymentProvider, CheckoutSession}
use vapivoiceassistant.Services.{
  World, Env, IsSound, call_provider, try_modify, commit_session, complete_key, ◌>>◌,
}
use vapivoiceassistant.Services.Outcomes.{
  Ensures, bind-Ensures, call_provider-Ensures, try_modify-Ensures,
}
use vapivoiceassistant.PaymentService.Create.{
  Notifier, PaymentSessionCreateRequest, new_payment, session_created, book_payment, open_session,
  send_payment_link, store_payment, confirm_payment,
}

-- The payment is the open one of the booking, and has its price.
abbrev pub IsOpenFor : Booking → Payment → Db → Type 0
IsOpenFor booking payment d =
    (get_open_for_booking booking.id d ≡ some payment)
    × ((payment.amount ≡ booking.total_price) × (payment.currency ≡ booking.currency))

-- The state after a payment has been written.
abbrev Opened : {S : Type 0} → Booking → Payment → World S → Type 0
Opened booking payment w =
    IsSound w
    × (IsOpenFor booking payment w.session.working × IsOpenFor booking payment w.session.committed)

module _ {S : Type 0} (provider : PaymentProvider S) (env : Env) (booking : Booking) where
  send_payment_link-Ensures :
      (notifier : Option Notifier) (shown : Booking) (payment : Payment)
      {E : Error → World S → Type 0}
      → Ensures
          (Opened booking payment)
          (send_payment_link provider notifier env shown payment)
          (λ _. Opened booking payment)
          E
  unfolding commit get_open_for_booking
  send_payment_link-Ensures none shown payment = record { run = λ w p. p }
  send_payment_link-Ensures (some send) shown payment = record {
    run = λ w p. ((p.0.1, p.0.1), (p.1.0, p.1.0));
  }

module _ {S : Type 0} (provider : PaymentProvider S) (notifier : Option Notifier) (env : Env)
    (d0 : Db) (request : PaymentSessionCreateRequest) (booking : Booking) where
  book_added :
      (payment : Payment) (d d' : Db) (r : Result Db)
      → payment.booking_id ≡ booking.id
      → ((d1 : Db)
          → r ≡ ok d1
          → IsConsistent (update_booking payment.booking_id (set_payment_status "PENDING") d1)
            × (get_open_for_booking booking.id d1 ≡ some payment))
      → (elim r [
        | err e ↦ err e
        | ok d1 ↦ ok (
            record_audit_event
              (session_created provider.name env booking payment)
              (update_booking booking.id (set_payment_status "PENDING") d1))
      ])
        ≡ ok d'
      → IsConsistent d' × (get_open_for_booking booking.id d' ≡ some payment)
  unfolding record_audit_event update_booking get_open_for_booking
  book_added payment d d' (err e) own c k = absurd (cc k)
  book_added payment d d' (ok d1) own c k =
      let (consistent, found) = c d1 refl in
      (
        subst IsConsistent (ok-injective k) (
            subst (λ i. IsConsistent (update_booking i (set_payment_status "PENDING") d1)) own
              consistent),
        subst (λ x. get_open_for_booking booking.id x ≡ some payment) (ok-injective k) found,
      )

  found_added :
      (payment : Payment) (d d1 : Db)
      → payment.booking_id ≡ booking.id
      → is_terminal payment.status ≡ false
      → add_payment payment d ≡ ok d1
      → get_open_for_booking booking.id d1 ≡ some payment
  unfolding get_open_for_booking
  found_added payment d d1 own open_now added =
      let (same, _) = add_payment-ok payment d d1 added in
      subst (λ x. get_open_for_booking booking.id x ≡ some payment) (sym same)
        (ground (arith, (eq_iff payment.booking_id booking.id).1 own))

  -- What is known of the world while the payment is made.
  abbrev Ready : World S → Type 0
  Ready w =
      IsSound w × ((w.session.committed ≡ d0) × AllTerminal booking.id w.session.working.payments)

  abbrev Refused : Error → World S → Type 0
  Refused _ w = IsConsistent w.session.committed × (w.session.committed ≡ d0)

  book_payment-Booked :
      (payment : Payment) (d d' : Db)
      → payment.booking_id ≡ booking.id
      → is_terminal payment.status ≡ false
      → IsConsistent d
      → AllTerminal booking.id d.payments
      → book_payment provider notifier env booking payment d ≡ ok d'
      → IsConsistent d' × (get_open_for_booking booking.id d' ≡ some payment)
  unfolding book_payment
  book_payment-Booked payment d d' own open_now c t e =
      book_added payment d d' (add_payment payment d) own
        (λ d1 k. (
          add_payment-IsConsistent payment d d1 c
              (subst (λ i. AllTerminal i d.payments) (sym own) t) k,
          found_added payment d d1 own open_now k,
        ))
        e

  abbrev Written : Payment → World S → Type 0
  Written payment w = IsSound w × IsOpenFor booking payment w.session.working

  confirm_payment-Ensures :
      (payment : Payment)
      → Ensures
          (Written payment)
          (confirm_payment provider notifier env request booking payment)
          (λ p w. Opened booking p w)
          Refused
  unfolding commit
  confirm_payment-Ensures payment =
      let shown = set_payment_status "PENDING" booking in
      bind-Ensures
        (commit_session
          >> complete_key request.idempotency_key (("payment_id", payment.id) ∷ []) env.now)
        (λ _. send_payment_link provider notifier env shown payment >> pure payment)
        (λ _. Opened booking payment) (record { run = λ w p. ((p.0.1, p.0.1), (p.1, p.1)) })
        (λ _.
          bind-Ensures (send_payment_link provider notifier env shown payment) (λ _. pure payment)
            (λ _. Opened booking payment)
            (send_payment_link-Ensures provider env booking notifier shown payment)
            (λ _. record { run = λ w p. p }))

  store_payment-Ensures :
      (session : CheckoutSession)
      → Ensures Ready
          (store_payment provider notifier env request booking session)
          (λ p w. Opened booking p w)
          Refused
  unfolding new_payment is_terminal
  store_payment-Ensures session =
      let payment = new_payment provider.name env request booking session in
      bind-Ensures (try_modify (book_payment provider notifier env booking payment))
        (λ _. confirm_payment provider notifier env request booking payment) (λ _. Written payment)
        (try_modify-Ensures (book_payment provider notifier env booking payment)
          (λ w d p e.
            let (c, found) =
              book_payment-Booked payment w.session.working d refl refl p.0.1 p.1.1 e in
            ((p.0.0, c), (found, (refl, refl))))
          (λ e w p. (p.0.0, p.1.0)))
        (λ _. confirm_payment-Ensures payment)

  pub open_session-Ensures :
      Ensures Ready
        (open_session provider notifier env request booking)
        (λ p w. Opened booking p w)
        Refused
  unfolding open_session
  open_session-Ensures =
      let call =
        provider.create_checkout_session booking.pnr booking.total_price booking.currency
          request.idempotency_key in
      bind-Ensures (call_provider call) (store_payment provider notifier env request booking)
        (λ _. Ready) (call_provider-Ensures call (λ session w s p. p) (λ e w s p. (p.0.0, p.1.0)))
        store_payment-Ensures
