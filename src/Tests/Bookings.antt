-- ===== src/Tests/Bookings.antt =====
-- Witnesses for the booking, cancellation and passenger services.
use vapivoiceassistant.Prelude.{
  ◌≤◌, ◌≡◌, ◌⊎◌, refl, String, Bool, true, false, some, none, [], ◌==◌, length, arith, All,
}
use vapivoiceassistant.Prelude.Dict.{lookup}
use vapivoiceassistant.Database.{get_by_pnr}
use vapivoiceassistant.Errors.{ok, is_ok}
use vapivoiceassistant.Services.{World, IsSound}
use vapivoiceassistant.Services.Outcomes.{After}
use vapivoiceassistant.Pnr.{attempt_pnr, generate_unique_pnr, generate_unique_pnr-succeeds}
use vapivoiceassistant.BookingService.{BookingCreateRequest, NewIds, create_booking}
use vapivoiceassistant.BookingService.Created.{IsFound}
use vapivoiceassistant.BookingService.Atomic.{create_booking-After}
use vapivoiceassistant.CancellationService.{BookingCancelRequest, cancel, is_completed}
use vapivoiceassistant.CancellationService.Atomic.{cancel-After}
use vapivoiceassistant.CancellationService.Cancelled.{IsCancelled}
use vapivoiceassistant.PaymentService.Refund.Balanced.{IsBalanced}
use vapivoiceassistant.PassengerService.{remove_passenger}
use vapivoiceassistant.PassengerService.Kept.{remove_passenger-After}
use vapivoiceassistant.Tests.Data.{
  booking_with, paid_db, paid_db-IsConsistent, world_of, env, fixed_payments,
  fixed_payments-RefundsExactly, fixed_airline,
}

abbrev new_ids : NewIds
new_ids = record { booking = "b2"; customer = "c2"; passenger = λ _. "p9" }

abbrev booking_request : BookingCreateRequest
booking_request = record {
  quote_id = "quote_1";
  passengers = [];
  email = "ada@example.org";
  phone = "+491";
  idempotency_key = "key-0004";
}

abbrev paid_world : World (Unit {0})
paid_world = world_of paid_db tt

create_booking-After_example :
    After
      (λ b w. IsSound w × IsFound b w.session.working)
      (λ _ w. IsSound w × (w.session.committed ≡ paid_world.session.committed))
      (create_booking fixed_airline none new_ids (λ _. "XYZ789") env booking_request paid_world)
create_booking-After_example =
    create_booking-After fixed_airline none new_ids (λ _. "XYZ789") env booking_request paid_world
      (paid_db-IsConsistent, paid_db-IsConsistent) (refl, tt)

abbrev cancel_request : BookingCancelRequest
cancel_request = record { pnr = "ABC234"; idempotency_key = "key-0005"; customer_confirmed = true }

abbrev both_world : World (Unit {0} × Unit {0})
both_world = world_of paid_db (tt, tt)

both_world-IsBalanced : IsBalanced both_world
both_world-IsBalanced =
    ((paid_db-IsConsistent, paid_db-IsConsistent), ((omega arith, tt), (omega arith, tt)))

unseen_key : is_completed (lookup "key-0005" both_world.idempotency) ≡ false
unfolding lookup
unseen_key = refl

booking_found : get_by_pnr "ABC234" both_world.session.working ≡ some (booking_with "PAID")
unfolding get_by_pnr
booking_found = refl

cancel-After_example :
    After
      (λ r w. IsBalanced w × ((r.1 ≡ true) ⊎ All (IsCancelled "b1") w.session.committed.bookings))
      (λ _ w. IsBalanced w × (w.session.committed ≡ both_world.session.committed))
      (cancel fixed_airline fixed_payments env cancel_request both_world)
cancel-After_example =
    cancel-After fixed_airline fixed_payments env cancel_request (booking_with "PAID") both_world
      fixed_payments-RefundsExactly both_world-IsBalanced unseen_key booking_found

remove_passenger-After_example :
    After
      (λ b w. IsSound w × (1 ≤ length b.passengers))
      (λ _ w. IsSound w × (w.session.committed ≡ paid_world.session.committed))
      (remove_passenger fixed_airline env "ABC234" "p1" paid_world)
remove_passenger-After_example =
    remove_passenger-After fixed_airline env "ABC234" "p1" paid_world
      (paid_db-IsConsistent, paid_db-IsConsistent)

abbrev taken : String → Bool
taken pnr = pnr == "AAAAAA"

first_free : generate_unique_pnr (λ _. "BBBBBB") taken ≡ ok "BBBBBB"
unfolding generate_unique_pnr attempt_pnr
first_free = refl

generate_unique_pnr-succeeds_example : is_ok (generate_unique_pnr (λ _. "BBBBBB") taken) ≡ true
generate_unique_pnr-succeeds_example =
    generate_unique_pnr-succeeds (λ _. "BBBBBB") taken 3 (omega arith) refl
