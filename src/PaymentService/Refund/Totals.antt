-- ===== src/PaymentService/Refund/Totals.antt =====
-- No more than the amount of a payment is refunded.
use vapivoiceassistant.Prelude.{
  ℕ, String, ◌≡◌, refl, ap, sym, subst, Bool, true, false, ◌&&◌, ◌||◌, Option, none, some, List, [],
  ◌∷◌, ◌==◌, arith, All, contains, if_elim, Bool-cases, inl, inr, if◌then◌else◌, truthy_text,
}
use mathlib.Core.Option.{some-injective}
use vapivoiceassistant.Prelude.Int.{ℤ, pos, ◌+ℤ◌, ◌-ℤ◌, ◌≤ℤ◌, leb_ℤ, ltb_ℤ, int_laws}
use vapivoiceassistant.StateMachine.{is_terminal}
use vapivoiceassistant.Errors.{ok}
use vapivoiceassistant.Models.{Booking, Payment}
use vapivoiceassistant.Database.{
  Db, get_latest_for_booking, update_booking, update_payment, update_payment_rows,
  set_payment_status, record_audit_event,
}
use vapivoiceassistant.Database.Rows.{
  IsConsistent, AllTerminal-of_latest, shown-set_payment_status, All-map,
}
use vapivoiceassistant.Database.Updates.{touch-IsConsistent, only_found}
use vapivoiceassistant.PaymentProvider.{PaymentProvider, RefundResult}
use vapivoiceassistant.Services.{Env}
use vapivoiceassistant.PaymentService.Refund.{
  already_refunded, refunded, apply_refund_outcome, refundable, with_intent, remaining,
  is_invalid_refund, settles,
}

-- What was refunded of each payment is at most its amount.
abbrev pub IsWithin : Payment → Type 0
IsWithin p = already_refunded p ≤ℤ p.amount

-- The provider says that it refunded what it was asked to refund.
abbrev pub RefundsExactly : {S : Type 0} → PaymentProvider S → Type 0
RefundsExactly {S} provider =
    (intent : String) (sum : ℤ) (currency key : String) (reason : Option String) (s : S)
    (result : RefundResult)
    → (provider.refund_payment intent sum currency key reason s).0 ≡ ok result
    → result.amount ≡ sum

pub valid_refund :
    (sum : ℤ) (p : Payment)
    → is_invalid_refund sum p ≡ false
    → already_refunded p +ℤ sum ≤ℤ p.amount
valid_refund sum p h = grind int_laws

IsWithin-row :
    (f : Payment → Payment) (id : String) (q : Payment) (own : Bool)
    → (q.id == id) ≡ own
    → ((q.id == id) ≡ true → IsWithin (f q))
    → IsWithin q
    → IsWithin (if own then f q else q)
IsWithin-row f id q true e h k = h e
IsWithin-row f id q false e h k = k

IsWithin-update :
    (f : Payment → Payment) (id : String) (ps : List Payment)
    → All (λ q. (q.id == id) ≡ true → IsWithin (f q)) ps
    → All IsWithin ps
    → All IsWithin (update_payment_rows id f ps)
unfolding update_payment_rows
IsWithin-update f id [] h k = tt
IsWithin-update f id (q ∷ qs) h k =
    (IsWithin-row f id q (q.id == id) refl h.0 k.0, IsWithin-update f id qs h.1 k.1)

with_intent-some :
    (p : Payment) (o : Option String) (x : Payment × String) → with_intent p o ≡ some x → x.0 ≡ p
with_intent-some p none x e = absurd (cc e)
with_intent-some p (some intent) x e =
    ap (λ (y : Payment × String). y.0) (sym (some-injective _ _ e))

pub refundable_lem :
    (o : Option Payment) (x : Payment × String)
    → refundable o ≡ some x
    → (o ≡ some x.0) × ((x.0.status == "SUCCEEDED") ≡ true)
refundable_lem none x e = absurd (cc e)
refundable_lem (some p) x e = elim (Bool-cases (p.status == "SUCCEEDED")) [
  | inr other ↦ absurd (cc (rw other at e))
  | inl paid ↦
      let same = with_intent-some p (truthy_text p.provider_payment_intent_id) x (rw paid at e) in
      (ap some (sym same), subst (λ q. (q.status == "SUCCEEDED") ≡ true) (sym same) paid)
]

-- The payment is the latest of the booking, and it went through.
pub record IsPaid (booking : Booking) (payment : Payment) (d : Db) : Type 0 where
  pub latest : get_latest_for_booking booking.id d ≡ some payment
  pub paid : (payment.status == "SUCCEEDED") ≡ true

settled_terminal : (p : Payment) → (p.status == "SUCCEEDED") ≡ true → is_terminal p.status ≡ true
unfolding is_terminal contains
settled_terminal p paid = ground arith

-- What an outcome adds to the refunded amount.
abbrev pub outcome_sum : Option RefundResult → ℤ → ℤ
outcome_sum none sum = sum
outcome_sum (some result) sum = result.amount

-- The columns that a refund leaves alone, and the total.
refunded_keeps :
    (now : ℕ) (o : Option RefundResult) (sum : ℤ) (reason : Option String) (q : Payment)
    → let q' = refunded now o sum reason q in
      ((q'.id ≡ q.id) × ((q'.booking_id ≡ q.booking_id) × (q'.status ≡ q.status)))
      × ((q'.amount ≡ q.amount) × (already_refunded q' ≡ already_refunded q +ℤ outcome_sum o sum))
unfolding refunded
refunded_keeps now none sum reason q = ((refl, (refl, refl)), (refl, refl))
refunded_keeps now (some result) sum reason q = ((refl, (refl, refl)), (refl, refl))

module _ (env : Env) (booking : Booking) (payment : Payment) (sum : ℤ)
    (result : Option RefundResult) (reason : Option String) (mark : Bool) where
  pub apply_refund_outcome-IsConsistent :
      (d : Db)
      → IsConsistent d
      → IsPaid booking payment d
      → IsConsistent (apply_refund_outcome env payment booking result sum reason mark d)
  unfolding apply_refund_outcome record_audit_event get_latest_for_booking update_booking
      update_payment
  apply_refund_outcome-IsConsistent d c due =
      let all_terminal =
        AllTerminal-of_latest booking.id d.payments c.settled due.latest
          (settled_terminal payment due.paid) in
      let closed : IsConsistent (update_booking booking.id (set_payment_status "REFUNDED") d) =
        record {
          settled = c.settled;
          shown =
              shown-set_payment_status booking.id "REFUNDED" d.payments d.bookings
                (λ _. all_terminal) c.shown;
        } in
      let f = refunded env.now result sum reason in
      let keeps = refunded_keeps env.now result sum reason in
      if_elim IsConsistent (mark && settles result)
        (touch-IsConsistent (λ p. p.booking_id == booking.id)
          (update_booking booking.id (set_payment_status "REFUNDED") d) closed due.latest f
          (λ q. (keeps q).0.0) (λ q. (keeps q).0.1.0) (λ q. (keeps q).0.1.1))
        (touch-IsConsistent (λ p. p.booking_id == booking.id) d c due.latest f (λ q. (keeps q).0.0)
          (λ q. (keeps q).0.1.0) (λ q. (keeps q).0.1.1))

  pub apply_refund_outcome-IsWithin :
      (d : Db)
      → IsConsistent d
      → IsPaid booking payment d
      → already_refunded payment +ℤ outcome_sum result sum ≤ℤ payment.amount
      → All IsWithin d.payments
      → All IsWithin (apply_refund_outcome env payment booking result sum reason mark d).payments
  unfolding apply_refund_outcome record_audit_event get_latest_for_booking update_payment
      update_booking
  apply_refund_outcome-IsWithin d c due fits h =
      let f = refunded env.now result sum reason in
      let keeps = (refunded_keeps env.now result sum reason payment).1 in
      let within : IsWithin (f payment) =
        subst (λ a. already_refunded (f payment) ≤ℤ a) (sym keeps.0)
          (subst (λ a. a ≤ℤ payment.amount) (sym keeps.1) fits) in
      let rows =
        IsWithin-update f payment.id d.payments
          (All-map (λ q. (q.id == payment.id) ≡ true → q ≡ payment)
            (λ q. (q.id == payment.id) ≡ true → IsWithin (f q)) d.payments
            (λ q only own. subst (λ x. IsWithin (f x)) (sym (only own)) within)
            (only_found (λ p. p.booking_id == booking.id) d.payments c.settled due.latest))
          h in
      if_elim (λ (x : Db). All IsWithin x.payments) (mark && settles result) rows rows

-- When the provider has answered a refund of all that remained, no amount is accepted afterwards,
-- also when the answer was that the refund failed or was canceled.
pub refund_uses_up :
    (now : ℕ) (p : Payment) (result : RefundResult) (reason : Option String) (sum : ℤ)
    → result.amount ≡ remaining p
    → is_invalid_refund sum (refunded now (some result) (remaining p) reason p) ≡ true
unfolding refunded ◌+ℤ◌ ◌-ℤ◌
refund_uses_up now p result reason sum all =
    subst (λ a. leb_ℤ sum (pos 0) || ltb_ℤ (p.amount -ℤ (already_refunded p +ℤ a)) sum ≡ true)
      (sym all) (ground arith)
