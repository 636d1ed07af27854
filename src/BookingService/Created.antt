-- ===== src/BookingService/Created.antt =====
-- What `create_booking` leaves behind, on every branch.
use vapivoiceassistant.Prelude.{
  ℕ, String, ◌≡◌, refl, sym, subst, true, false, Option, none, some, [], ◌∷◌, ◌==◌, arith, All,
  eq_refl,
}
use vapivoiceassistant.Errors.{Error, Result, ok, err, ok-injective, pure}
use vapivoiceassistant.Models.{Booking, Customer}
use vapivoiceassistant.StateMachine.{is_terminal}
use vapivoiceassistant.Database.{Db, commit, get_by_pnr, add_booking, record_audit_event}
use vapivoiceassistant.Database.Rows.{IsConsistent, All-map}
use vapivoiceassistant.AirlineProvider.{AirlineProvider, ProviderBooking}
use vapivoiceassistant.Services.{
  World, Env, ◌>>◌, try_modify, commit_session, complete_key, IsSound,
}
use vapivoiceassistant.Services.Outcomes.{Ensures, bind-Ensures, try_modify-Ensures}
use vapivoiceassistant.BookingService.{
  BookingCreateRequest, NewIds, new_booking, ConfirmationNotifier, send_confirmation,
  booking_created, book_with, confirm_booking, store_booking,
}

-- The booking is the one that its PNR finds.
abbrev pub IsFound : Booking → Db → Type 0
IsFound b d = get_by_pnr b.pnr d ≡ some b

-- No payment is of a booking with the id.
abbrev pub IsUnused : String → Db → Type 0
IsUnused id d = All (λ p. (p.booking_id == id) ≡ false) d.payments

add_booking-ok :
    (b : Booking) (d d' : Db)
    → add_booking b d ≡ ok d'
    → d' ≡ record d { bookings = b ∷ d.bookings }
unfolding add_booking
add_booking-ok b d d' e = ground arith

-- An unpaid booking with a new id is added.
add_booking-IsConsistent :
    (b : Booking) (d d' : Db)
    → IsConsistent d
    → IsUnused b.id d
    → add_booking b d ≡ ok d'
    → IsConsistent d' × IsFound b d'
unfolding get_by_pnr
add_booking-IsConsistent b d d' c unused e =
    let new_rows = record d { bookings = b ∷ d.bookings } in
    subst (λ x. IsConsistent x × IsFound b x) (sym (add_booking-ok b d d' e))
      (
        record {
          settled = c.settled;
          shown = (
            λ _.
                All-map (λ p. (p.booking_id == b.id) ≡ false)
                  (λ p. (p.booking_id == b.id) ≡ true → is_terminal p.status ≡ true) d.payments
                  (λ p other own. absurd (cc (other, own))) unused,
            c.shown,
          );
        },
        ground (arith, eq_refl b.pnr),
      )

module _ {A : Type 0} (airline : AirlineProvider A) (notifier : Option ConfirmationNotifier)
    (ids : NewIds) (draw : ℕ → String) (env : Env) (d0 : Db) where
  booked :
      (provider_booking : ProviderBooking) (b : Booking) (d d' : Db) (r : Result Db)
      → ((d1 : Db) → r ≡ ok d1 → IsConsistent d1 × IsFound b d1)
      → (elim r [
        | err e ↦ err e
        | ok d1 ↦ ok (
            record_audit_event
              (booking_created airline notifier ids draw env b provider_booking)
              d1)
      ])
        ≡ ok d'
      → IsConsistent d' × IsFound b d'
  unfolding record_audit_event get_by_pnr
  booked provider_booking b d d' (err e) c k = absurd (cc k)
  booked provider_booking b d d' (ok d1) c k =
      subst (λ x. IsConsistent x × IsFound b x) (ok-injective k) (c d1 refl)

  book_with-IsConsistent :
      (provider_booking : ProviderBooking) (b : Booking) (d d' : Db)
      → IsConsistent d
      → IsUnused b.id d
      → book_with airline notifier ids draw env provider_booking b d ≡ ok d'
      → IsConsistent d' × IsFound b d'
  unfolding book_with
  book_with-IsConsistent provider_booking b d d' c unused =
      booked provider_booking b d d' (add_booking b d)
        (λ d1. add_booking-IsConsistent b d d1 c unused)

  -- What is known of the world while the booking is made.
  abbrev Before : World A → Type 0
  Before w = IsSound w × ((w.session.committed ≡ d0) × IsUnused ids.booking w.session.working)

  abbrev Refused : Error → World A → Type 0
  Refused _ w = IsSound w × (w.session.committed ≡ d0)

  abbrev Booked : Booking → World A → Type 0
  Booked b w = IsSound w × (IsFound b w.session.working × IsFound b w.session.committed)

  send_confirmation-Ensures :
      (n : Option ConfirmationNotifier) (b : Booking)
      → Ensures (Booked b) (send_confirmation n b) (λ _. Booked b) Refused
  unfolding commit get_by_pnr
  send_confirmation-Ensures none b = record { run = λ w p. p }
  send_confirmation-Ensures (some send) b = record { run = λ w p. ((p.0.1, p.0.1), (p.1.0, p.1.0)) }

  confirm_booking-Ensures :
      (request : BookingCreateRequest) (b : Booking)
      → Ensures
          (λ w. IsSound w × IsFound b w.session.working)
          (confirm_booking airline notifier ids draw env request b)
          (λ x. Booked x)
          Refused
  unfolding commit
  confirm_booking-Ensures request b =
      bind-Ensures
        (commit_session >> complete_key request.idempotency_key (("pnr", b.pnr) ∷ []) env.now)
        (λ _. send_confirmation notifier b >> pure b) (λ _. Booked b)
        (record { run = λ w p. ((p.0.1, p.0.1), (p.1, p.1)) })
        (λ _.
          bind-Ensures (send_confirmation notifier b) (λ _. pure b) (λ _. Booked b)
            (send_confirmation-Ensures notifier b) (λ _. record { run = λ w p. p }))

  pub store_booking-Ensures :
      (request : BookingCreateRequest) (provider_booking : ProviderBooking) (customer : Customer)
      (pnr : String)
      → Ensures Before
          (store_booking airline notifier ids draw env request provider_booking customer pnr)
          (λ x. Booked x)
          Refused
  unfolding new_booking
  store_booking-Ensures request provider_booking customer pnr =
      let b = new_booking ids env.now request provider_booking customer pnr in
      let write = book_with airline notifier ids draw env provider_booking b in
      bind-Ensures (try_modify write) (λ _. confirm_booking airline notifier ids draw env request b)
        (λ _ w. IsSound w × IsFound b w.session.working)
        (try_modify-Ensures write
          (λ w d p e.
            let (c, found) =
              book_with-IsConsistent provider_booking b w.session.working d p.0.1 p.1.1 e in
            ((p.0.0, c), found))
          (λ e w p. (p.0, p.1.0)))
        (λ _. confirm_booking-Ensures request b)
