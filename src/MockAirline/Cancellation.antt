-- ===== src/MockAirline/Cancellation.antt =====
-- What the mock says of a cancellation.
use vapivoiceassistant.Prelude.{
  ℕ, ◌+◌, ◌*◌, ◌/◌, ◌≤◌, String, ◌≡◌, refl, ◌∙◌, true, false, Option, none, some, eq_refl, arith,
  Bool-cases, inl, inr,
}
use mathlib.Core.Option.{some-injective}
use vapivoiceassistant.Prelude.Int.{pos, ◌+ℤ◌, ◌-ℤ◌, ◌≤ℤ◌}
use vapivoiceassistant.Prelude.Dict.{lookup, lookup-insert}
use vapivoiceassistant.Errors.{ok}
use vapivoiceassistant.AirlineProvider.{ProviderBooking, CancellationResult}
use vapivoiceassistant.MockAirline.{
  MockAirline, money_percent, fee_percent, is_cancelled, compute_cancellation_policy, cancel_known,
  cancel_booking, cancelled_at, nothing_left,
}

fee-le : (n departure now : ℕ) → (n * fee_percent departure now + 50) / 100 ≤ n
unfolding fee_percent
fee-le n departure now = ground arith

fee_grows :
    (n departure now later : ℕ)
    → now ≤ later
    → (n * fee_percent departure now + 50) / 100 ≤ (n * fee_percent departure later + 50) / 100
unfolding fee_percent
fee_grows n departure now later h = ground arith

-- Of a price that is not negative, the fee and what is refunded make up the whole, neither is
-- negative, and what is refunded does not grow as the departure comes nearer.
pub compute_cancellation_policy_lem :
    (booking : ProviderBooking) (price now later : ℕ)
    → is_cancelled booking.status ≡ false
    → booking.total_price ≡ pos price
    → now ≤ later
    → let policy = compute_cancellation_policy booking now in
      (policy.cancellation_fee +ℤ policy.refundable_amount ≡ booking.total_price)
      × ((pos 0 ≤ℤ policy.refundable_amount)
          × ((pos 0 ≤ℤ policy.cancellation_fee)
              × ((compute_cancellation_policy booking later).refundable_amount
                  ≤ℤ policy.refundable_amount)))
unfolding compute_cancellation_policy money_percent ◌+ℤ◌ ◌-ℤ◌
compute_cancellation_policy_lem booking price now later active total h =
    let below = fee-le price booking.departure_time now in
    let below' = fee-le price booking.departure_time later in
    let grows = fee_grows price booking.departure_time now later h in
    rw (active, total) (ground arith)

cancelled_again :
    (later : ℕ) (reference key : String) (o : Option ProviderBooking) (b : ProviderBooking)
    (m : MockAirline)
    → o ≡ some b
    → is_cancelled b.status ≡ true
    → cancel_known later reference key o m ≡ (ok (nothing_left reference b), m)
cancelled_again later reference key none b m e c = absurd (cc e)
cancelled_again later reference key (some x) b m e c =
    let same = some-injective _ _ e in rw (same, c) refl

cancel_stores :
    (now : ℕ) (reference key : String) (o : Option ProviderBooking) (r : CancellationResult)
    (m : MockAirline)
    → lookup reference m.bookings ≡ o
    → (cancel_known now reference key o m).0 ≡ ok r
    → (b : ProviderBooking) × ((lookup reference (cancel_known now reference key o m).1.bookings
          ≡ some b)
        × (is_cancelled b.status ≡ true))
cancel_stores now reference key none r m known e = absurd (cc e)
cancel_stores now reference key (some x) r m known e = elim (Bool-cases (is_cancelled x.status)) [
  | inl done ↦ (x, (rw done known, done))
  | inr active ↦ (
    cancelled_at now x,
    (
      rw active (
          lookup-insert reference reference (cancelled_at now x) m.bookings
          ∙ rw (eq_refl reference) refl),
      refl,
    ),
  )
]

-- After a cancellation that went through, another one at any time changes nothing and refunds
-- nothing.
pub cancel_booking-repeated :
    (now later : ℕ) (reference key key' : String) (r : CancellationResult) (m : MockAirline)
    → (cancel_booking now reference key m).0 ≡ ok r
    → let m' = (cancel_booking now reference key m).1 in
      (r' : CancellationResult) × ((cancel_booking later reference key' m' ≡ (ok r', m'))
        × ((r'.refundable_amount ≡ pos 0) × (r'.already_cancelled ≡ true)))
unfolding cancel_booking
cancel_booking-repeated now later reference key key' r m e =
    let (b, (stored, done)) =
      cancel_stores now reference key (lookup reference m.bookings) r m refl e in
    let m' = (cancel_known now reference key (lookup reference m.bookings) m).1 in
    (
      nothing_left reference b,
      (
        cancelled_again later reference key' (lookup reference m'.bookings) b m' stored done,
        (refl, refl),
      ),
    )
