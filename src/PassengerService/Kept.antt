-- ===== src/PassengerService/Kept.antt =====
-- Changes of passengers keep the database consistent, and none takes the last passenger away.
use vapivoiceassistant.Prelude.{
  ◌≤◌, ◌+◌, String, ◌≡◌, refl, subst, sym, false, Option, none, some, List, [], ◌∷◌, ◌==◌, arith,
  All, length, leb, truthy_text, Bool-cases, inl, inr, if_elim,
}
use vapivoiceassistant.Prelude.Int.{ℤ}
use vapivoiceassistant.Errors.{Error, pure, or_raise, validation_failed_error, not_found_error}
use vapivoiceassistant.Models.{Booking, BookingPassenger}
use vapivoiceassistant.Database.{Db, commit, update_rows, update_booking, record_audit_event}
use vapivoiceassistant.Database.Rows.{IsConsistent, ShowsOpen, AllTerminal}
use vapivoiceassistant.AirlineProvider.{AirlineProvider}
use vapivoiceassistant.Services.{
  World, Env, ◌>>=◌, ◌>>◌, raise_if, call_provider, find_booking, IsSound,
}
use vapivoiceassistant.Services.Outcomes.{
  After, Ensures, bind-Ensures, call_provider-Ensures, or_raise-Ensures, raise_if-Ensures,
  find_booking-Ensures, pure-Ensures, weaken,
}
use vapivoiceassistant.PassengerService.{
  drop_passenger, without_passenger, set_total_price, get_active_booking, finish, find_passenger,
  remove_at_airline, remove_found, remove_active, remove_passenger,
}

length-drop_passenger :
    (id : String) (ps : List BookingPassenger) → length ps ≤ length (drop_passenger id ps) + 1
unfolding drop_passenger
length-drop_passenger id [] = omega arith
length-drop_passenger id (p ∷ ps) = elim (Bool-cases (p.id == id)) [
  | inl own ↦ rw own (omega arith)
  | inr other ↦ let rest = length-drop_passenger id ps in rw other (omega arith)
]

-- A change of bookings that keeps their ids and payment statuses.
abbrev pub KeepsPayment : (Booking → Booking) → Type 0
KeepsPayment f = (b : Booking) → ((f b).id ≡ b.id) × ((f b).payment_status ≡ b.payment_status)

update_rows-shown :
    (id : String) (f : Booking → Booking) (d : Db) (bs : List Booking)
    → KeepsPayment f
    → All (ShowsOpen d.payments) bs
    → All (ShowsOpen d.payments) (update_rows id f bs)
unfolding update_rows
update_rows-shown id f d [] keeps h = tt
update_rows-shown id f d (b ∷ bs) keeps h = (
  if_elim (ShowsOpen d.payments) (b.id == id)
      (λ quiet.
        subst (λ i. AllTerminal i d.payments) (sym (keeps b).0)
          (h.0 (subst (λ s. (s == "PENDING") ≡ false) (keeps b).1 quiet)))
      h.0,
  update_rows-shown id f d bs keeps h.1,
)

module _ {A : Type 0} (airline : AirlineProvider A) (env : Env) (d0 : Db) where
  abbrev Before : World A → Type 0
  Before w = IsSound w × (w.session.committed ≡ d0)

  abbrev Refused : Error → World A → Type 0
  Refused _ = Before

  finish-Ensures :
      (action : String) (booking : Booking) (f : Booking → Booking)
      → KeepsPayment f
      → Ensures Before
          (finish airline env action booking f)
          (λ b w. IsSound w × (b ≡ f booking))
          Refused
  unfolding update_booking record_audit_event commit
  finish-Ensures action booking f keeps = record {
    run = λ w p.
        let consistent : IsConsistent (update_booking booking.id f w.session.working) = record {
          settled = p.0.1.settled;
          shown =
              update_rows-shown booking.id f w.session.working w.session.working.bookings keeps
                p.0.1.shown;
        } in
        ((consistent, consistent), refl);
  }

  get_active_booking-Ensures :
      (pnr : String)
      → Ensures Before
          (get_active_booking airline env pnr)
          (λ b w. Before w × ((b.status == "CANCELLED") ≡ false))
          Refused
  get_active_booking-Ensures pnr =
      let cancelled = validation_failed_error "BOOKING_NOT_MODIFIABLE" in
      bind-Ensures (find_booking pnr) (λ b. raise_if (b.status == "CANCELLED") cancelled >> pure b)
        (λ _. Before)
        (weaken (find_booking-Ensures pnr (λ e w p. p)) (λ w p. p) (λ a w q. q.0) (λ e w q. q))
        (λ b.
          bind-Ensures (raise_if (b.status == "CANCELLED") cancelled) (λ _. pure b)
            (λ _ w. ((b.status == "CANCELLED") ≡ false) × Before w)
            (raise_if-Ensures (b.status == "CANCELLED") cancelled (λ w _ p. p))
            (λ _. pure-Ensures b (λ w p. (p.1, p.0))))

  remove_at_airline-Ensures :
      (o : Option String) (booking : Booking)
      → Ensures Before (remove_at_airline airline env o booking) (λ _. Before) Refused
  remove_at_airline-Ensures none booking = pure-Ensures booking.total_price (λ w p. p)
  remove_at_airline-Ensures (some id) booking =
      let call = airline.remove_passenger booking.provider_booking_reference id in
      bind-Ensures (call_provider call) (λ updated. pure updated.total_price) (λ _. Before)
        (call_provider-Ensures call (λ a w s p. p) (λ e w s p. p))
        (λ updated. pure-Ensures updated.total_price (λ w p. p))

  -- The booking that is returned was not cancelled, and has a passenger.
  abbrev Left : Booking → World A → Type 0
  Left b w = IsSound w × (1 ≤ length b.passengers)

  remove_found-Ensures :
      (id : String) (booking : Booking) (target : BookingPassenger)
      → Ensures Before (remove_found airline env id booking target) Left Refused
  unfolding without_passenger
  remove_found-Ensures id booking target =
      let few = leb (length booking.passengers) 1 in
      let last = validation_failed_error "PASSENGER_VALIDATION_FAILED" in
      let known =
        remove_at_airline airline env (truthy_text target.provider_passenger_id) booking in
      let drop = λ (price : ℤ).
        finish airline env "passenger.removed" booking
          (λ b. without_passenger id (set_total_price price b)) in
      bind-Ensures (raise_if few last) (λ _. known >>= drop) (λ _ w. (few ≡ false) × Before w)
        (raise_if-Ensures few last (λ w _ p. p))
        (λ _. record {
          run = λ w p.
              (bind-Ensures known drop (λ _. Before)
                  (remove_at_airline-Ensures (truthy_text target.provider_passenger_id) booking)
                  (λ price.
                    weaken
                      (finish-Ensures "passenger.removed" booking
                        (λ b. without_passenger id (set_total_price price b)) (λ b. (refl, refl)))
                      (λ w p. p)
                      (λ b v q. (
                        q.0,
                        subst (λ (x : Booking). 1 ≤ length x.passengers) (sym q.1)
                            (let dropped = length-drop_passenger id booking.passengers in
                              let many = p.0 in ground arith),
                      ))
                      (λ e v q. q))).run
                w p.1;
        })

  remove_active-Ensures :
      (id : String) (booking : Booking)
      → Ensures Before (remove_active airline env id booking) Left Refused
  remove_active-Ensures id booking =
      let missing = not_found_error "PASSENGER_NOT_FOUND" in
      let target = find_passenger airline env id booking in
      bind-Ensures (or_raise target missing) (remove_found airline env id booking) (λ _. Before)
        (weaken (or_raise-Ensures target missing (λ w _ p. p)) (λ w p. p) (λ a w q. q.1)
          (λ e w q. q))
        (remove_found-Ensures id booking)

  remove_passenger-Ensures :
      (pnr id : String) → Ensures Before (remove_passenger airline env pnr id) Left Refused
  unfolding remove_passenger
  remove_passenger-Ensures pnr id =
      bind-Ensures (get_active_booking airline env pnr) (remove_active airline env id) (λ _. Before)
        (weaken (get_active_booking-Ensures pnr) (λ w p. p) (λ a w q. q.0) (λ e w q. q))
        (remove_active-Ensures id)

-- A removal from a consistent state leaves a consistent one. The booking that it returns still has a
-- passenger; when it raises, nothing has been committed.
pub remove_passenger-After :
    {A : Type 0} (airline : AirlineProvider A) (env : Env) (pnr booking_passenger_id : String)
    (w : World A)
    → IsSound w
    → After
        (λ b w'. IsSound w' × (1 ≤ length b.passengers))
        (λ _ w'. IsSound w' × (w'.session.committed ≡ w.session.committed))
        (remove_passenger airline env pnr booking_passenger_id w)
remove_passenger-After airline env pnr booking_passenger_id w s =
    (remove_passenger-Ensures airline env w.session.committed pnr booking_passenger_id).run w
      (s, refl)
