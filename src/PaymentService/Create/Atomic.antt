-- ===== src/PaymentService/Create/Atomic.antt =====
-- `create_payment_session` keeps the database consistent, and commits nothing when it raises.
use vapivoiceassistant.Prelude.{
  String, ◌≡◌, refl, Option, none, some, arith, ◌==◌, not, contains, if◌then◌else◌,
}
use vapivoiceassistant.Errors.{Error, pure, raise, conflict_error, validation_failed_error}
use vapivoiceassistant.Models.{Booking}
use vapivoiceassistant.StateMachine.{booking_payment_statuses_blocking_new_session}
use vapivoiceassistant.Database.{Db, rollback, get_by_pnr, get_open_for_booking}
use vapivoiceassistant.Database.Rows.{
  IsConsistent, AllTerminal, AllTerminal-of_found, find_elim, ShowsOpen,
}
use vapivoiceassistant.PaymentProvider.{PaymentProvider}
use vapivoiceassistant.Services.{
  World, find_booking, Env, query, raise_if, begin_key, or_else, or_undo, replay_payment, IsSound,
  ◌>>=◌,
}
use vapivoiceassistant.Services.Outcomes.{
  After, Ensures, find_booking-Ensures, guard-Ensures, bind-Ensures, or_undo-Ensures, if-Ensures,
  pure-Ensures, raise-Ensures, replay_payment-Ensures, or_else-Ensures, weaken,
}
use vapivoiceassistant.PaymentService.Create.{
  Notifier, PaymentSessionCreateRequest, open_session, reuse_open, start_session,
  create_payment_session, pay_for,
}
use vapivoiceassistant.PaymentService.Create.Consistent.{open_session-Ensures}

-- What the call leaves behind when it raises.
abbrev pub Unchanged : {S : Type 0} → Db → Error → World S → Type 0
Unchanged d0 _ w = IsSound w × (w.session.committed ≡ d0)

module _ {S : Type 0} (provider : PaymentProvider S) (notifier : Option Notifier) (env : Env)
    (d0 : Db) (request : PaymentSessionCreateRequest) where
  start_session-Ensures :
      (booking : Booking)
      → Ensures
          (λ w.
            IsSound w
            × ((w.session.committed ≡ d0) × AllTerminal booking.id w.session.working.payments))
          (start_session provider notifier env request booking)
          (λ _. IsSound)
          (Unchanged d0)
  unfolding start_session rollback
  start_session-Ensures booking =
      let Before = λ (w : World S).
        IsSound w
        × ((w.session.committed ≡ d0) × AllTerminal booking.id w.session.working.payments) in
      let attempt =
        or_undo request.idempotency_key (open_session provider notifier env request booking) in
      bind-Ensures (begin_key request.idempotency_key env.now)
        (λ cached. replay_payment "PAYMENT_SESSION_IN_PROGRESS" cached >>= λ existing.
          or_else existing attempt)
        (λ _. Before) (record { run = λ w p. p })
        (λ cached.
          bind-Ensures (replay_payment "PAYMENT_SESSION_IN_PROGRESS" cached)
            (λ existing. or_else existing attempt) (λ _. Before)
            (replay_payment-Ensures (λ e w p. (p.0, p.1.0)) "PAYMENT_SESSION_IN_PROGRESS" cached)
            (λ existing.
              or_else-Ensures existing attempt (λ a _ w p. p.0)
                (λ _.
                  or_undo-Ensures request.idempotency_key
                    (open_session provider notifier env request booking)
                    (λ _ w. IsConsistent w.session.committed × (w.session.committed ≡ d0))
                    (weaken (open_session-Ensures provider notifier env d0 request booking)
                      (λ w p. p) (λ a w q. q.0) (λ e w q. q))
                    (λ e w p. ((p.0, p.0), p.1)))))

  -- No open payment is found only if there is none.
  reuse_open-Ensures :
      (booking : Booking) (pnr : String)
      → Ensures
          (λ w.
            (IsSound w × (w.session.committed ≡ d0))
            × (get_by_pnr pnr w.session.working ≡ some booking))
          (reuse_open provider notifier env booking)
          (λ existing w.
            (IsSound w × (w.session.committed ≡ d0))
            × (existing ≡ none → AllTerminal booking.id w.session.working.payments))
          (Unchanged d0)
  unfolding reuse_open contains get_by_pnr
  reuse_open-Ensures booking pnr =
      let paid = conflict_error "PAYMENT_ALREADY_COMPLETED" in
      let find_open = query (get_open_for_booking booking.id) in
      let unpaid = if booking.payment_status == "REFUNDED" then raise paid else find_open in
      if-Ensures (contains booking.payment_status booking_payment_statuses_blocking_new_session)
        (if booking.payment_status == "PAID" then raise paid else unpaid) (pure none)
        (λ _.
          if-Ensures (booking.payment_status == "PAID") (raise paid) unpaid
            (λ _. raise-Ensures paid (λ w p. p.0))
            (λ _.
              if-Ensures (booking.payment_status == "REFUNDED") (raise paid) find_open
                (λ _. raise-Ensures paid (λ w p. p.0))
                (λ _. record {
                  run = λ w p. (p.0, AllTerminal-of_found booking.id w.session.working);
                })))
        (λ free. pure-Ensures none (λ w p. (
          p.0,
          λ _.
              find_elim (ShowsOpen w.session.working.payments) (λ b. b.pnr == pnr)
                w.session.working.bookings p.0.0.1.shown p.1 (ground arith),
        )))

  pay_for-Ensures :
      (booking : Booking)
      → Ensures
          (λ w.
            (IsSound w × (w.session.committed ≡ d0))
            × (get_by_pnr request.pnr w.session.working ≡ some booking))
          (pay_for provider notifier env request booking)
          (λ _. IsSound)
          (Unchanged d0)
  pay_for-Ensures booking =
      let cancelled = validation_failed_error "BOOKING_NOT_PAYABLE" in
      let start = start_session provider notifier env request booking in
      bind-Ensures (raise_if (booking.status == "CANCELLED") cancelled)
        (λ _. reuse_open provider notifier env booking >>= λ existing. or_else existing start)
        (λ _ w.
          (IsSound w × (w.session.committed ≡ d0))
          × (get_by_pnr request.pnr w.session.working ≡ some booking))
        (guard-Ensures (booking.status == "CANCELLED") cancelled (λ w p. p.0))
        (λ _.
          bind-Ensures (reuse_open provider notifier env booking)
            (λ existing. or_else existing start)
            (λ existing w.
              (IsSound w × (w.session.committed ≡ d0))
              × (existing ≡ none → AllTerminal booking.id w.session.working.payments))
            (reuse_open-Ensures booking request.pnr)
            (λ existing.
              or_else-Ensures existing start (λ _ _ w p. p.0.0)
                (λ free.
                  weaken (start_session-Ensures booking) (λ w p. (p.0.0, (p.0.1, p.1 free)))
                    (λ a w q. q) (λ e w q. q))))

  create_payment_session-Ensures :
      Ensures
        (λ w. IsSound w × (w.session.committed ≡ d0))
        (create_payment_session provider notifier env request)
        (λ _. IsSound)
        (Unchanged d0)
  unfolding create_payment_session
  create_payment_session-Ensures =
      let unconfirmed = validation_failed_error "CONFIRMATION_REQUIRED" in
      bind-Ensures (raise_if (not request.customer_confirmed) unconfirmed)
        (λ _. find_booking request.pnr >>= pay_for provider notifier env request)
        (λ _ w. IsSound w × (w.session.committed ≡ d0))
        (guard-Ensures (not request.customer_confirmed) unconfirmed (λ w p. p))
        (λ _.
          bind-Ensures (find_booking request.pnr) (pay_for provider notifier env request)
            (λ booking w.
              (IsSound w × (w.session.committed ≡ d0))
              × (get_by_pnr request.pnr w.session.working ≡ some booking))
            (find_booking-Ensures request.pnr (λ e w p. p)) pay_for-Ensures)

-- A call from a consistent state leaves a consistent state, whatever the provider and the notifier
-- do; and when it raises an exception, what is committed is what was committed before it.
pub create_payment_session-After :
    {S : Type 0} (provider : PaymentProvider S) (notifier : Option Notifier) (env : Env)
    (request : PaymentSessionCreateRequest) (w : World S)
    → IsSound w
    → After
        (λ _. IsSound)
        (λ _ w'. IsSound w' × (w'.session.committed ≡ w.session.committed))
        (create_payment_session provider notifier env request w)
create_payment_session-After provider notifier env request w s =
    (create_payment_session-Ensures provider notifier env w.session.committed request).run w
      (s, refl)
