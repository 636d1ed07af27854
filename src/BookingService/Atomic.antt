-- ===== src/BookingService/Atomic.antt =====
-- `create_booking` returns a booking that its PNR finds, and commits nothing when it raises.
use vapivoiceassistant.Prelude.{
  ℕ, String, ◌≡◌, refl, sym, subst, Bool, false, Option, none, some, [], ◌∷◌, ◌==◌, All, map,
  eq_iff, if◌then◌else◌,
}
use vapivoiceassistant.Prelude.Dict.{Dict, lookup}
use vapivoiceassistant.Errors.{
  Error, Result, ok, err, pure, raise, or_raise, validation_failed_error, key_error,
}
use vapivoiceassistant.Models.{Booking, Customer}
use vapivoiceassistant.Idempotency.{StoredResult}
use vapivoiceassistant.Database.{
  Db, rollback, get_by_pnr, pnr_exists, get_or_create, existing_or_new, find_by_email_or_phone,
}
use vapivoiceassistant.Database.Rows.{AreConsistent, find_holds}
use vapivoiceassistant.AirlineProvider.{AirlineProvider, ProviderBooking}
use vapivoiceassistant.Services.{
  World, Env, ◌>>=◌, query, begin_key, call_provider, or_undo, or_else, IsSound,
}
use vapivoiceassistant.Services.Outcomes.{
  After, Ensures, bind-Ensures, call_provider-Ensures, or_undo-Ensures, or_else-Ensures,
  or_raise-Ensures, if-Ensures, pure-Ensures, raise-Ensures, weaken,
}
use vapivoiceassistant.BookingService.{
  BookingCreateRequest, NewIds, passenger_input, stored_booking, replay_end, replay_booking,
  ConfirmationNotifier, store_booking, add_customer, choose_pnr, take_provider_booking, book,
  create_booking,
}
use vapivoiceassistant.Pnr.{generate_unique_pnr}
use vapivoiceassistant.BookingService.Created.{IsFound, IsUnused, store_booking-Ensures}

-- The booking that a replay gives, if it gives one, is found.
abbrev IsReplay : Option Booking → Db → Type 0
IsReplay none d = Unit
IsReplay (some b) d = IsFound b d

found_by_pnr : (pnr : String) (d : Db) (o : Option Booking) → get_by_pnr pnr d ≡ o → IsReplay o d
unfolding get_by_pnr
found_by_pnr pnr d none e = tt
found_by_pnr pnr d (some b) e =
    subst (λ p. get_by_pnr p d ≡ some b)
      (sym ((eq_iff b.pnr pnr).0 (find_holds (λ x. x.pnr == pnr) d.bookings e))) e

module _ {A : Type 0} (P : World A → Type 0) (E : Error → World A → Type 0)
    (refuse : (e : Error) (w : World A) → P w → E e w) where
  stored_booking-Ensures :
      (result : Option (Dict String))
      → Ensures P (stored_booking result) (λ o w. P w × IsReplay o w.session.working) E
  unfolding stored_booking
  stored_booking-Ensures none = pure-Ensures none (λ w p. (p, tt))
  stored_booking-Ensures (some []) = pure-Ensures none (λ w p. (p, tt))
  stored_booking-Ensures (some (e ∷ d)) =
      bind-Ensures (or_raise (lookup "pnr" (e ∷ d)) key_error) (λ pnr. query (get_by_pnr pnr))
        (λ _. P)
        (weaken (or_raise-Ensures (lookup "pnr" (e ∷ d)) key_error (λ w _ p. refuse key_error w p))
          (λ w p. p) (λ a w q. q.1) (λ e w q. q))
        (λ pnr. record {
          run = λ w p.
              (p, found_by_pnr pnr w.session.working (get_by_pnr pnr w.session.working) refl);
        })

  replay_end-Ensures :
      (in_progress : Bool) (o : Option Booking)
      → Ensures
          (λ w. P w × IsReplay o w.session.working)
          (replay_end in_progress o)
          (λ o w. P w × IsReplay o w.session.working)
          E
  replay_end-Ensures in_progress (some b) = pure-Ensures (some b) (λ w p. p)
  replay_end-Ensures in_progress none =
      let refused = validation_failed_error "BOOKING_IN_PROGRESS" in
      if-Ensures in_progress (raise refused) (pure none)
        (λ _. raise-Ensures refused (λ w p. refuse refused w p.0))
        (λ _. pure-Ensures none (λ w p. p))

  replay_booking-Ensures :
      (cached : Option StoredResult)
      → Ensures P (replay_booking cached) (λ o w. P w × IsReplay o w.session.working) E
  unfolding replay_booking
  replay_booking-Ensures none = pure-Ensures none (λ w p. (p, tt))
  replay_booking-Ensures (some cached) =
      bind-Ensures
        (if cached.status == "completed" then stored_booking cached.result else pure none)
        (replay_end (cached.status == "in_progress")) (λ o w. P w × IsReplay o w.session.working)
        (if-Ensures (cached.status == "completed") (stored_booking cached.result) (pure none)
          (λ _. stored_booking-Ensures cached.result) (λ _. pure-Ensures none (λ w p. (p, tt))))
        (replay_end-Ensures (cached.status == "in_progress"))

module _ {A : Type 0} (airline : AirlineProvider A) (notifier : Option ConfirmationNotifier)
    (ids : NewIds) (draw : ℕ → String) (env : Env) (d0 : Db) (request : BookingCreateRequest) where
  abbrev Before : World A → Type 0
  Before w = IsSound w × ((w.session.committed ≡ d0) × IsUnused ids.booking w.session.working)

  abbrev Refused : Error → World A → Type 0
  Refused _ w = IsSound w × (w.session.committed ≡ d0)

  abbrev Made : Booking → World A → Type 0
  Made b w = IsSound w × IsFound b w.session.working

  -- A customer that is found or added changes no booking and no payment.
  customer_keeps :
      (o : Option Customer) (d : Db)
      → let d' = (existing_or_new o ids.customer (some request.email) (some request.phone) d).1 in
        (d'.bookings ≡ d.bookings) × (d'.payments ≡ d.payments)
  customer_keeps none d = (refl, refl)
  customer_keeps (some c) d = (refl, refl)

  add_customer-Ensures :
      Ensures Before (add_customer airline notifier ids draw env request) (λ _. Before) Refused
  unfolding get_or_create
  add_customer-Ensures = record {
    run = λ w p.
        let kept =
          (get_or_create ids.customer (some request.email) (some request.phone)
            w.session.working).1 in
        let (bookings, payments) =
          customer_keeps
            (find_by_email_or_phone (some request.email) (some request.phone) w.session.working)
            w.session.working in
        (
          (
            p.0.0,
            subst (λ ps. AreConsistent ps kept.bookings) (sym payments)
                (subst (λ bs. AreConsistent w.session.working.payments bs) (sym bookings) p.0.1),
          ),
          (
            p.1.0,
            subst (λ ps. All (λ p. (p.booking_id == ids.booking) ≡ false) ps) (sym payments) p.1.1,
          ),
        );
  }

  pnr-After :
      (w : World A) (r : Result String) → Before w → After {A = String} (λ _. Before) Refused (r, w)
  pnr-After w (ok pnr) p = p
  pnr-After w (err e) p = (p.0, p.1.0)

  take_provider_booking-Ensures :
      (provider_booking : ProviderBooking)
      → Ensures Before
          (take_provider_booking airline notifier ids draw env request provider_booking)
          Made
          Refused
  take_provider_booking-Ensures provider_booking =
      let store = store_booking airline notifier ids draw env request provider_booking in
      let choose = choose_pnr airline notifier ids draw env in
      bind-Ensures (add_customer airline notifier ids draw env request)
        (λ customer. choose >>= store customer) (λ _. Before) add_customer-Ensures
        (λ customer.
          bind-Ensures choose (store customer) (λ _. Before)
            (record {
              run = λ w p.
                  pnr-After w (generate_unique_pnr draw (λ pnr. pnr_exists pnr w.session.working))
                    p;
            })
            (λ pnr.
              weaken
                (store_booking-Ensures airline notifier ids draw env d0 request provider_booking
                  customer pnr)
                (λ w p. p) (λ b w q. (q.0, q.1.0)) (λ e w q. q)))

  book-Ensures : Ensures Before (book airline notifier ids draw env request) Made Refused
  book-Ensures =
      let call =
        airline.create_booking request.quote_id (map passenger_input request.passengers)
          request.email request.phone request.idempotency_key in
      bind-Ensures (call_provider call)
        (take_provider_booking airline notifier ids draw env request) (λ _. Before)
        (call_provider-Ensures call (λ a w s p. p) (λ e w s p. (p.0, p.1.0)))
        take_provider_booking-Ensures

  create_booking-Ensures :
      Ensures Before (create_booking airline notifier ids draw env request) Made Refused
  unfolding create_booking rollback
  create_booking-Ensures =
      let key = request.idempotency_key in
      let go = book airline notifier ids draw env request in
      bind-Ensures (begin_key key env.now)
        (λ cached. replay_booking cached >>= λ existing. or_else existing (or_undo key go))
        (λ _. Before) (record { run = λ w p. p })
        (λ cached.
          bind-Ensures (replay_booking cached) (λ existing. or_else existing (or_undo key go))
            (λ o w. Before w × IsReplay o w.session.working)
            (replay_booking-Ensures Before Refused (λ e w p. (p.0, p.1.0)) cached)
            (λ existing.
              or_else-Ensures existing (or_undo key go)
                (λ b same w p. (p.0.0, subst (λ o. IsReplay o w.session.working) same p.1))
                (λ _.
                  or_undo-Ensures key go Refused
                    (weaken book-Ensures (λ w p. p.0) (λ b w q. q) (λ e w q. q))
                    (λ e w p. ((p.0.0, p.0.0), p.1)))))

-- If no payment is of a booking with the id that the new booking gets, a call from a consistent state
-- ends in one. When it returns a booking, by making it or by a replay, the booking is the one that
-- its PNR finds; when it raises, nothing has been committed.
pub create_booking-After :
    {A : Type 0} (airline : AirlineProvider A) (notifier : Option ConfirmationNotifier)
    (ids : NewIds) (draw : ℕ → String) (env : Env) (request : BookingCreateRequest) (w : World A)
    → IsSound w
    → IsUnused ids.booking w.session.working
    → After
        (λ b w'. IsSound w' × IsFound b w'.session.working)
        (λ _ w'. IsSound w' × (w'.session.committed ≡ w.session.committed))
        (create_booking airline notifier ids draw env request w)
create_booking-After airline notifier ids draw env request w sound unused =
    (create_booking-Ensures airline notifier ids draw env w.session.committed request).run w
      (sound, (refl, unused))
