-- ===== src/Database.antt =====
-- The database session and the repositories over it: booking_repository.py and payment_repository.py
-- of apps/api/app/repositories, and audit_service.py of apps/api/app/services. A table is a list of
-- rows, the newest first: rows are added at the front, which stands for their `created_at`. Updates
-- of an object that the session holds are updates of its row by its id.
pub mod Rows
pub mod Updates
use vapivoiceassistant.Prelude.{
  String, Bool, true, false, not, ◌&&◌, ◌||◌, Option, none, some, List, [], ◌∷◌, ◌==◌, holds,
  is_some, any, find, keep, truthy_text, if◌then◌else◌,
}
use vapivoiceassistant.Errors.{Result, ok, err, integrity_error}
use vapivoiceassistant.Models.{Booking, Customer, Payment, AuditLog, ToolExecution}
use vapivoiceassistant.StateMachine.{is_terminal}

pub record Db : Type 0 where
  pub bookings : List Booking
  pub payments : List Payment
  pub audit_logs : List AuditLog
  pub customers : List Customer
  pub tool_executions : List ToolExecution

-- What is committed, and what the open transaction sees.
pub record Session : Type 0 where
  pub committed : Db
  pub working : Db

unfoldable pub commit : Session → Session
commit s = record s { committed = s.working }

unfoldable pub rollback : Session → Session
rollback s = record s { working = s.committed }

-- `self.db.add(entry)` of `record_audit_event`.
unfoldable pub record_audit_event : AuditLog → Db → Db
record_audit_event entry d = record d { audit_logs = entry ∷ d.audit_logs }

-- BookingRepository

unfoldable pub pnr_exists : String → Db → Bool
pnr_exists pnr d = is_some (find (λ b. b.pnr == pnr) d.bookings)

unfoldable pub get_by_pnr : String → Db → Option Booking
get_by_pnr pnr d = find (λ b. b.pnr == pnr) d.bookings

unfoldable pub get_booking_by_id : String → Db → Option Booking
get_booking_by_id id d = find (λ b. b.id == id) d.bookings

-- The unique columns are the primary key and the PNR.
unfoldable pub add_booking : Booking → Db → Result Db
add_booking booking d =
    if any (λ b. b.pnr == booking.pnr || b.id == booking.id) d.bookings
    then err integrity_error
    else ok (record d { bookings = booking ∷ d.bookings })

unfoldable pub list_for_customer : String → Db → List Booking
list_for_customer customer_id d = keep (λ b. b.customer_id == customer_id) d.bookings

unfoldable pub update_rows : String → (Booking → Booking) → List Booking → List Booking
update_rows id f [] = []
update_rows id f (b ∷ bs) = (if b.id == id then f b else b) ∷ update_rows id f bs

-- The fields of the booking with the id are set.
unfoldable pub update_booking : String → (Booking → Booking) → Db → Db
update_booking id f d = record d { bookings = update_rows id f d.bookings }

-- `booking.payment_status = status`
abbrev pub set_payment_status : String → Booking → Booking
set_payment_status status b = record b { payment_status = status }

-- PaymentRepository

-- Two texts of a unique column that may be null.
abbrev same_text : Option String → Option String → Bool
same_text none _ = false
same_text (some a) o = holds o a

-- The unique columns are the primary key, the idempotency key and the provider's session id.
abbrev pub clashes : Payment → Payment → Bool
clashes payment p =
    p.id == payment.id
    || p.idempotency_key == payment.idempotency_key
    || same_text p.provider_session_id payment.provider_session_id

unfoldable pub add_payment : Payment → Db → Result Db
add_payment payment d =
    if any (clashes payment) d.payments
    then err integrity_error
    else ok (record d { payments = payment ∷ d.payments })

unfoldable pub get_payment_by_id : String → Db → Option Payment
get_payment_by_id id d = find (λ p. p.id == id) d.payments

unfoldable pub get_by_idempotency_key : String → Db → Option Payment
get_by_idempotency_key key d = find (λ p. p.idempotency_key == key) d.payments

unfoldable pub get_by_provider_session_id : String → Db → Option Payment
get_by_provider_session_id id d = find (λ p. holds p.provider_session_id id) d.payments

unfoldable pub get_open_for_booking : String → Db → Option Payment
get_open_for_booking booking_id d =
    find (λ p. p.booking_id == booking_id && not (is_terminal p.status)) d.payments

unfoldable pub get_latest_for_booking : String → Db → Option Payment
get_latest_for_booking booking_id d = find (λ p. p.booking_id == booking_id) d.payments

unfoldable pub list_for_booking : String → Db → List Payment
list_for_booking booking_id d = keep (λ p. p.booking_id == booking_id) d.payments

unfoldable pub update_payment_rows : String → (Payment → Payment) → List Payment → List Payment
update_payment_rows id f [] = []
update_payment_rows id f (p ∷ ps) = (if p.id == id then f p else p) ∷ update_payment_rows id f ps

-- The fields of the payment with the id are set.
unfoldable pub update_payment : String → (Payment → Payment) → Db → Db
update_payment id f d = record d { payments = update_payment_rows id f d.payments }

-- CustomerRepository

-- `Customer.column == value`, for a value that is neither missing nor empty.
abbrev column_is : Option String → Option String → Bool
column_is none column = false
column_is (some value) column = holds column value

unfoldable pub find_by_email_or_phone : Option String → Option String → Db → Option Customer
find_by_email_or_phone email phone d =
    find (λ c. column_is (truthy_text email) c.email || column_is (truthy_text phone) c.phone)
      d.customers

-- A customer that is not found is added, with the id given.
abbrev pub existing_or_new :
    Option Customer → String → Option String → Option String → Db → Customer × Db
existing_or_new (some existing) new_id email phone d = (existing, d)
existing_or_new none new_id email phone d =
    let customer : Customer = record { id = new_id; email = email; phone = phone } in
    (customer, record d { customers = customer ∷ d.customers })

unfoldable pub get_or_create : String → Option String → Option String → Db → Customer × Db
get_or_create new_id email phone d =
    existing_or_new (find_by_email_or_phone email phone d) new_id email phone d
