-- ===== src/Database/Updates.antt =====
-- Which payments can be open after the row of one of them has been changed.
use mathlib.Core.Option.{some-injective}
use vapivoiceassistant.Prelude.{
  String, ◌≡◌, refl, ap, sym, ◌∙◌, Bool, true, false, some, List, [], ◌∷◌, arith, All, ◌==◌, subst,
  eq_iff, eq_refl, find, Bool-cases, inl, inr, if◌then◌else◌,
}
use vapivoiceassistant.Models.{Booking, Payment}
use vapivoiceassistant.StateMachine.{is_terminal}
use vapivoiceassistant.Database.{
  Db, update_booking, set_payment_status, update_payment_rows, update_payment, get_payment_by_id,
}
use vapivoiceassistant.Database.Rows.{
  find_elim, find_holds, All-map, AllTerminal, IsSettled, ShowsOpen, IsConsistent,
  shown-set_payment_status,
}

module _ (id : String) (f : Payment → Payment) where
  -- The update of the rows with the id keeps their ids and bookings, and opens none of them.
  record Closes (q : Payment) : Type 0 where
    same_id : (f q).id ≡ q.id
    same_booking : (f q).booking_id ≡ q.booking_id
    stays : (q.id == id) ≡ true → is_terminal q.status ≡ true → is_terminal (f q).status ≡ true

  Closes-row :
      (booking : String) (q : Payment) (own : Bool)
      → (q.id == id) ≡ own
      → Closes q
      → ((q.booking_id == booking) ≡ true → is_terminal q.status ≡ true)
      → let q' = if own then f q else q in
        (q'.booking_id == booking) ≡ true → is_terminal q'.status ≡ true
  Closes-row booking q true e c h k =
      c.stays e (h (subst (λ b. (b == booking) ≡ true) c.same_booking k))
  Closes-row booking q false e c h k = h k

  row_id : (q : Payment) (own : Bool) → Closes q → (if own then f q else q).id ≡ q.id
  row_id q true c = c.same_id
  row_id q false c = refl

  row_booking :
      (q : Payment) (own : Bool) → Closes q → (if own then f q else q).booking_id ≡ q.booking_id
  row_booking q true c = c.same_booking
  row_booking q false c = refl

  close_row :
      (booking : String) (q : Payment) (own : Bool)
      → (q.id == id) ≡ own
      → ((r : Payment) → is_terminal (f r).status ≡ true)
      → ((q.booking_id == booking) ≡ true → (q.id == id) ≡ false → is_terminal q.status ≡ true)
      → let q' = if own then f q else q in
        (q'.booking_id == booking) ≡ true → is_terminal q'.status ≡ true
  close_row booking q true e t h k = t q
  close_row booking q false e t h k = h k e

  AllTerminal-update :
      (booking : String) (ps : List Payment)
      → All Closes ps
      → AllTerminal booking ps
      → AllTerminal booking (update_payment_rows id f ps)
  unfolding update_payment_rows
  AllTerminal-update booking [] c h = tt
  AllTerminal-update booking (q ∷ qs) c h =
      (Closes-row booking q (q.id == id) refl c.0 h.0, AllTerminal-update booking qs c.1 h.1)

  fresh-update :
      (i : String) (ps : List Payment)
      → All Closes ps
      → All (λ r. (r.id == i) ≡ false) ps
      → All (λ r. (r.id == i) ≡ false) (update_payment_rows id f ps)
  unfolding update_payment_rows
  fresh-update i [] c h = tt
  fresh-update i (q ∷ qs) c h = (
    subst (λ j. (j == i) ≡ false) (sym (row_id q (q.id == id) c.0)) h.0,
    fresh-update i qs c.1 h.1,
  )

  IsSettled-update :
      (ps : List Payment) → All Closes ps → IsSettled ps → IsSettled (update_payment_rows id f ps)
  unfolding update_payment_rows
  IsSettled-update [] c s = tt
  IsSettled-update (q ∷ qs) c s = (
    subst (λ b. AllTerminal b (update_payment_rows id f qs)) (sym (row_booking q (q.id == id) c.0))
        (AllTerminal-update q.booking_id qs c.1 s.0),
    (
      subst (λ i. All (λ r. (r.id == i) ≡ false) (update_payment_rows id f qs))
          (sym (row_id q (q.id == id) c.0)) (fresh-update q.id qs c.1 s.1.0),
      IsSettled-update qs c.1 s.1.1,
    ),
  )

  -- After the update the rows with the id are at the end of their lives, and so are the other rows
  -- of the booking if they were before.
  AllTerminal-close :
      (booking : String) (ps : List Payment)
      → ((q : Payment) → is_terminal (f q).status ≡ true)
      → All
          (λ q.
            (q.booking_id == booking) ≡ true → (q.id == id) ≡ false → is_terminal q.status ≡ true)
          ps
      → AllTerminal booking (update_payment_rows id f ps)
  unfolding update_payment_rows
  AllTerminal-close booking [] t h = tt
  AllTerminal-close booking (q ∷ qs) t h =
      (close_row booking q (q.id == id) refl t h.0, AllTerminal-close booking qs t h.1)

-- The row that is found is the only one with its id.
pub only_found :
    (cond : Payment → Bool) (ps : List Payment) {p : Payment}
    → IsSettled ps
    → find cond ps ≡ some p
    → All (λ q. (q.id == p.id) ≡ true → q ≡ p) ps
only_found cond [] s e = tt
only_found cond (q ∷ qs) {p} s e = elim (Bool-cases (cond q)) [
  | inl hit ↦
      let same : q ≡ p = some-injective q p (rw hit at e) in
      (
        λ _. same,
        All-map (λ r. (r.id == q.id) ≡ false) (λ r. (r.id == p.id) ≡ true → r ≡ p) qs
            (λ r h k. absurd (cc (ap (λ (x : Payment). r.id == x.id) same))) s.1.0,
      )
  | inr miss ↦
      let rest : find cond qs ≡ some p = rw miss at e in
      (
        λ k. absurd (
            ground (
              arith,
              eq_iff q.id p.id,
              eq_iff p.id q.id,
              find_elim (λ r. (r.id == q.id) ≡ false) cond qs s.1.0 rest,
            )),
        only_found cond qs s.1.1 rest,
      )
]

-- While the row that is found is open, every other row of its booking is at the end of its life.
others_terminal :
    (cond : Payment → Bool) (ps : List Payment) {p : Payment}
    → IsSettled ps
    → find cond ps ≡ some p
    → is_terminal p.status ≡ false
    → All
        (λ q.
          (q.booking_id == p.booking_id) ≡ true
          → (q.id == p.id) ≡ false
          → is_terminal q.status ≡ true)
        ps
others_terminal cond [] s e o = tt
others_terminal cond (q ∷ qs) {p} s e o = elim (Bool-cases (cond q)) [
  | inl hit ↦
      let same : q ≡ p = some-injective q p (rw hit at e) in
      (
        λ _ k. absurd (cc (ap (λ (x : Payment). x.id == p.id) same, eq_refl p.id)),
        All-map (λ r. (r.booking_id == q.booking_id) ≡ true → is_terminal r.status ≡ true)
            (λ r.
              (r.booking_id == p.booking_id) ≡ true
              → (r.id == p.id) ≡ false
              → is_terminal r.status ≡ true)
            qs (λ r h k _. h (cc (ap (λ (x : Payment). r.booking_id == x.booking_id) same))) s.0,
      )
  | inr miss ↦
      let rest : find cond qs ≡ some p = rw miss at e in
      (
        λ k _. absurd (
            ground (
              arith,
              eq_iff q.booking_id p.booking_id,
              eq_iff p.booking_id q.booking_id,
              find_elim (λ r. (r.booking_id == q.booking_id) ≡ true → is_terminal r.status ≡ true)
                  cond qs s.0 rest,
            )),
        others_terminal cond qs s.1.1 rest o,
      )
]

shown-update :
    (id : String) (f : Payment → Payment) (ps : List Payment) (bs : List Booking)
    → All (Closes id f) ps
    → All (ShowsOpen ps) bs
    → All (ShowsOpen (update_payment_rows id f ps)) bs
shown-update id f ps bs c h =
    All-map (ShowsOpen ps) (ShowsOpen (update_payment_rows id f ps)) bs
      (λ b s k. AllTerminal-update id f b.id ps c (s k)) h

module _ (cond : Payment → Bool) (d : Db) {p : Payment} (consistent : IsConsistent d)
    (found : find cond d.payments ≡ some p) (f : Payment → Payment)
    (same_id : (q : Payment) → (f q).id ≡ q.id)
    (same_booking : (q : Payment) → (f q).booking_id ≡ q.booking_id) where
  -- An open payment gets a new status, and its booking a payment status that shows an open payment
  -- if it still is one.
  pub move-IsConsistent :
      (t booking_status : String)
      → is_terminal p.status ≡ false
      → ((q : Payment) → (f q).status ≡ t)
      → ((booking_status == "PENDING") ≡ false → is_terminal t ≡ true)
      → IsConsistent (
          update_booking p.booking_id (set_payment_status booking_status) (update_payment p.id f d))
  unfolding update_booking update_payment
  move-IsConsistent t booking_status open_before status shows =
      let closes : All (Closes p.id f) d.payments =
        All-map (λ q. (q.id == p.id) ≡ true → q ≡ p) (Closes p.id f) d.payments
          (λ q only. record {
            same_id = same_id q;
            same_booking = same_booking q;
            stays = λ k h. absurd (cc (ap (λ (x : Payment). is_terminal x.status) (only k)));
          })
          (only_found cond d.payments consistent.settled found) in
      record {
        settled = IsSettled-update p.id f d.payments closes consistent.settled;
        shown =
            shown-set_payment_status p.booking_id booking_status
              (update_payment_rows p.id f d.payments) d.bookings
              (λ k.
                AllTerminal-close p.id f p.booking_id d.payments
                  (λ q. subst (λ s. is_terminal s ≡ true) (sym (status q)) (shows k))
                  (others_terminal cond d.payments consistent.settled found open_before))
              (shown-update p.id f d.payments d.bookings closes consistent.shown);
      }

  -- A payment is changed with its status left alone.
  pub touch-IsConsistent :
      ((q : Payment) → (f q).status ≡ q.status) → IsConsistent (update_payment p.id f d)
  unfolding update_payment
  touch-IsConsistent status =
      let closes : All (Closes p.id f) d.payments =
        All-map (λ q. (q.id == p.id) ≡ true → q ≡ p) (Closes p.id f) d.payments
          (λ q only. record {
            same_id = same_id q;
            same_booking = same_booking q;
            stays = λ k h. subst (λ s. is_terminal s ≡ true) (sym (status q)) h;
          })
          (only_found cond d.payments consistent.settled found) in
      record {
        settled = IsSettled-update p.id f d.payments closes consistent.settled;
        shown = shown-update p.id f d.payments d.bookings closes consistent.shown;
      }

-- The search for a payment by its id does not see an update of another row.
find_by_id-update :
    (i id : String) (f : Payment → Payment) (ps : List Payment)
    → ((q : Payment) → (f q).id ≡ q.id)
    → (id == i) ≡ false
    → find (λ q. q.id == i) (update_payment_rows id f ps) ≡ find (λ q. q.id == i) ps
unfolding update_payment_rows
find_by_id-update i id f [] same_id other = refl
find_by_id-update i id f (q ∷ qs) same_id other = elim (Bool-cases (q.id == id)) [
  | inl own ↦
      let here : (q.id == i) ≡ false =
        subst (λ j. (j == i) ≡ false) (sym ((eq_iff q.id id).0 own)) other in
      let there : ((f q).id == i) ≡ false = subst (λ j. (j == i) ≡ false) (sym (same_id q)) here in
      let rest = find_by_id-update i id f qs same_id other in ground arith
  | inr kept ↦ let rest = find_by_id-update i id f qs same_id other in ground arith
]

-- A payment at the end of its life is what it was.
abbrev pub KeepsFinal : Db → Db → Type 0
KeepsFinal d d' =
    (id : String) (p : Payment)
    → is_terminal p.status ≡ true
    → get_payment_by_id id d ≡ some p
    → get_payment_by_id id d' ≡ some p

-- The update of an open payment leaves the others alone.
pub update_payment-KeepsFinal :
    (cond : Payment → Bool) (d : Db) {p : Payment} (f : Payment → Payment)
    → IsSettled d.payments
    → find cond d.payments ≡ some p
    → is_terminal p.status ≡ false
    → ((q : Payment) → (f q).id ≡ q.id)
    → KeepsFinal d (update_payment p.id f d)
unfolding update_payment get_payment_by_id
update_payment-KeepsFinal cond d {p} f settled found open_now same_id id q final there =
    elim (Bool-cases (p.id == id)) [
      | inr other ↦ find_by_id-update id p.id f d.payments same_id other ∙ there
      | inl own ↦
          let mine : (q.id == p.id) ≡ true =
            subst (λ j. (q.id == j) ≡ true) (sym ((eq_iff p.id id).0 own))
              (find_holds (λ r. r.id == id) d.payments there) in
          let same : q ≡ p =
            find_elim (λ r. (r.id == p.id) ≡ true → r ≡ p) (λ r. r.id == id) d.payments
              (only_found cond d.payments settled found) there mine in
          absurd (cc (ap (λ (r : Payment). is_terminal r.status) same))
    ]
