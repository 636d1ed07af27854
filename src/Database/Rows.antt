-- ===== src/Database/Rows.antt =====
-- Which payments of the database can be open: the rows under searches and updates.
use vapivoiceassistant.Prelude.{
  String, ◌≡◌, refl, sym, Bool, true, false, not, ◌&&◌, none, some, List, [], ◌∷◌, arith, All, ◌==◌,
  subst, eq_iff, find, any, Bool-cases, inl, inr, if◌then◌else◌,
}
use mathlib.Core.Option.{some-injective}
use vapivoiceassistant.Errors.{ok}
use vapivoiceassistant.Models.{Booking, Payment}
use vapivoiceassistant.StateMachine.{is_terminal}
use vapivoiceassistant.Database.{
  Db, get_open_for_booking, update_rows, update_booking, set_payment_status, add_payment, clashes,
}

module _ {A : Type 0} where
  -- What holds of every row holds of the row that is found.
  pub find_elim :
      (P : A → Type 0) (p : A → Bool) (xs : List A) {x : A} → All P xs → find p xs ≡ some x → P x
  find_elim P p [] h e = absurd (cc e)
  find_elim P p (y ∷ ys) h e = elim (Bool-cases (p y)) [
    | inl hit ↦ subst P (some-injective _ _ (rw hit at e)) h.0
    | inr miss ↦ find_elim P p ys h.1 (rw miss at e)
  ]

  pub find_holds : (p : A → Bool) (xs : List A) {x : A} → find p xs ≡ some x → p x ≡ true
  find_holds p [] e = absurd (cc e)
  find_holds p (y ∷ ys) e = elim (Bool-cases (p y)) [
    | inl hit ↦ subst (λ z. p z ≡ true) (some-injective _ _ (rw hit at e)) hit
    | inr miss ↦ find_holds p ys (rw miss at e)
  ]

  -- A search that finds nothing has passed over every row.
  pub find-none : (p : A → Bool) (xs : List A) → find p xs ≡ none → All (λ x. p x ≡ false) xs
  find-none p [] e = tt
  find-none p (y ∷ ys) e = elim (Bool-cases (p y)) [
    | inl hit ↦ absurd (cc (rw hit at e))
    | inr miss ↦ (miss, find-none p ys (rw miss at e))
  ]

  pub any-false : (p : A → Bool) (xs : List A) → any p xs ≡ false → All (λ x. p x ≡ false) xs
  any-false p [] e = tt
  any-false p (y ∷ ys) e = (ground arith, any-false p ys (ground arith))

  pub All-map : (P Q : A → Type 0) (xs : List A) → ((x : A) → P x → Q x) → All P xs → All Q xs
  All-map P Q [] f h = tt
  All-map P Q (x ∷ xs) f h = (f x h.0, All-map P Q xs f h.1)

-- The payments of a booking are all at the end of their lives.
abbrev pub AllTerminal : String → List Payment → Type 0
AllTerminal id ps = All (λ p. (p.booking_id == id) ≡ true → is_terminal p.status ≡ true) ps

-- Only the newest payment of a booking can be open, and no two payments have the same id.
abbrev pub IsSettled : List Payment → Type 0
IsSettled [] = Unit
IsSettled (p ∷ ps) =
    AllTerminal p.booking_id ps × (All (λ q. (q.id == p.id) ≡ false) ps × IsSettled ps)

-- A booking that is not shown as having a payment in flight has none that is open.
abbrev pub ShowsOpen : List Payment → Booking → Type 0
ShowsOpen ps b = (b.payment_status == "PENDING") ≡ false → AllTerminal b.id ps

pub record AreConsistent (payments : List Payment) (bookings : List Booking) : Type 0 where
  pub settled : IsSettled payments
  pub shown : All (ShowsOpen payments) bookings

abbrev pub IsConsistent : Db → Type 0
IsConsistent d = AreConsistent d.payments d.bookings

-- What a search, an insertion and an update do to the payments of a booking.

pub AllTerminal-of_found :
    (id : String) (d : Db) → get_open_for_booking id d ≡ none → AllTerminal id d.payments
unfolding get_open_for_booking
AllTerminal-of_found id d e =
    All-map (λ p. (p.booking_id == id && not (is_terminal p.status)) ≡ false)
      (λ p. (p.booking_id == id) ≡ true → is_terminal p.status ≡ true) d.payments
      (λ p h k. ground arith)
      (find-none (λ p. p.booking_id == id && not (is_terminal p.status)) d.payments e)

-- If the newest payment of a booking is at the end of its life, so are all.
pub AllTerminal-of_latest :
    (id : String) (ps : List Payment) {p : Payment}
    → IsSettled ps
    → find (λ q. q.booking_id == id) ps ≡ some p
    → is_terminal p.status ≡ true
    → AllTerminal id ps
AllTerminal-of_latest id [] s e t = tt
AllTerminal-of_latest id (q ∷ qs) s e t = elim (Bool-cases (q.booking_id == id)) [
  | inl own ↦ (
    λ _. subst (λ x. is_terminal x.status ≡ true) (sym (some-injective _ _ (rw own at e))) t,
    subst (λ i. AllTerminal i qs) ((eq_iff q.booking_id id).0 own) s.0,
  )
  | inr other ↦ (λ own. cc, AllTerminal-of_latest id qs s.1.1 (rw other at e) t)
]

-- Setting the status of a booking's payment keeps what is shown, if the booking is shown as in
-- flight or has no open payment.
pub shown-set_payment_status :
    (id status : String) (ps : List Payment) (bs : List Booking)
    → ((status == "PENDING") ≡ false → AllTerminal id ps)
    → All (ShowsOpen ps) bs
    → All (ShowsOpen ps) (update_rows id (set_payment_status status) bs)
unfolding update_rows
shown-set_payment_status id status ps [] t h = tt
shown-set_payment_status id status ps (b ∷ bs) t h = (
  elim (Bool-cases (b.id == id)) [
    | inl own ↦ rw own (λ k. subst (λ i. AllTerminal i ps) (sym ((eq_iff b.id id).0 own)) (t k))
    | inr other ↦ rw other h.0
  ],
  shown-set_payment_status id status ps bs t h.1,
)

shown-add_row :
    (p : Payment) (ps : List Payment) (b : Booking) (own : Bool)
    → (b.id == p.booking_id) ≡ own
    → ShowsOpen ps b
    → ShowsOpen (p ∷ ps) (if own then set_payment_status "PENDING" b else b)
shown-add_row p ps b true e h k = absurd (cc k)
shown-add_row p ps b false e h k =
    (λ own. ground (arith, eq_iff p.booking_id b.id, eq_iff b.id p.booking_id), h k)

shown-add :
    (p : Payment) (ps : List Payment) (bs : List Booking)
    → All (ShowsOpen ps) bs
    → All (ShowsOpen (p ∷ ps)) (update_rows p.booking_id (set_payment_status "PENDING") bs)
unfolding update_rows
shown-add p ps [] h = tt
shown-add p ps (b ∷ bs) h =
    (shown-add_row p ps b (b.id == p.booking_id) refl h.0, shown-add p ps bs h.1)

-- An accepted payment stands in front, and its id is new.
pub add_payment-ok :
    (p : Payment) (d d' : Db)
    → add_payment p d ≡ ok d'
    → (d' ≡ record d { payments = p ∷ d.payments }) × All (λ q. (q.id == p.id) ≡ false) d.payments
unfolding add_payment
add_payment-ok p d d' e = elim (Bool-cases (any (clashes p) d.payments)) [
  | inl clash ↦ absurd (ground arith)
  | inr free ↦ (
    ground arith,
    All-map (λ q. clashes p q ≡ false) (λ q. (q.id == p.id) ≡ false) d.payments
        (λ q h. ground arith) (any-false (clashes p) d.payments free),
  )
]

-- A payment of a booking with no open payment is added, and the booking is shown as in flight.
pub add_payment-IsConsistent :
    (p : Payment) (d d' : Db)
    → IsConsistent d
    → AllTerminal p.booking_id d.payments
    → add_payment p d ≡ ok d'
    → IsConsistent (update_booking p.booking_id (set_payment_status "PENDING") d')
unfolding update_booking
add_payment-IsConsistent p d d' c t e =
    let (same, fresh) = add_payment-ok p d d' e in
    rw same (record {
      settled = (t, (fresh, c.settled));
      shown = shown-add p d.payments d.bookings c.shown;
    })
