-- ===== src/Lib.antt =====
-- A model of the back end of a voice assistant that sells flights (apps/api/app): the services that a
-- web page and a telephone call both use, over a database session, an idempotency store, an airline
-- and a payment provider.
--
-- How the parts interact. A route or a voice tool first asks access control (Access) whether the
-- caller may go on, then calls a service. A service works on a `World` (Services): the database session
-- with what is committed and what the open transaction sees, the idempotency store, and the state of
-- the provider. A method is an `Action`, a function of that state to a result or an exception and the
-- next state, written in do blocks in the order of the source. A provider is a record of actions over a
-- state of its own, and an argument of the services; the mocks that the repository has are modelled
-- beside it. The clock, new ids, the caller, what `secrets` draws, encryption and digests are arguments.
-- A person signs in through Auth, whose `AuthWorld` holds the tables of accounts and the failures that
-- the limiter counts; a caller without an account proves a booking through VerificationService, and
-- both end in the `CurrentActor` that access control asks about. A tool call of the voice assistant
-- (Vapi) redeems the token that it comes with, is authorized for the booking that it names, has the
-- arguments of the language model turned into a request, and is dispatched to a service; its row, while
-- it keeps an outcome, stops a second delivery.
--
-- Files, with the code that they model under apps/api/app:
--   Prelude: lists, Boolean tests, dicts in insertion order, signed amounts.
--   Errors: core/exceptions.py, and the exceptions of providers, as values with their codes.
--   Models, Database: models/booking.py, payment.py, customer.py, audit_log.py,
--     tool_execution.py;
--     repositories/booking_repository.py, payment_repository.py, customer_repository.py;
--     services/audit_service.py. Database/Rows and Database/Updates carry the invariant: no payment
--     but the newest of a booking is open, and one is open only if the booking shows PENDING.
--   Idempotency: core/idempotency.py (`begin`, `complete`, `fail`).
--   StateMachine: core/payments/state_machine.py.
--   PaymentProvider, MockPayments: providers/payments/base.py and mock.py.
--   AirlineProvider, MockAirline: providers/airline/base.py and mock.py.
--   Services: what the services share: transactions, `try`/`except`, replays. Services/Outcomes has the
--     rules from which the proofs about services are put together, one per kind of statement.
--   PaymentService: services/payment_service.py; Create has `create_payment_session` and
--     `get_payment_status`, Refund `refund_payment` and `apply_refund_outcome`, Webhook
--     `handle_webhook_event`, and Webhook/Redelivered is about events that are delivered again.
--   CancellationService, BookingService, PassengerService: services/cancellation_service.py,
--     booking_service.py and passenger_service.py. Pnr: core/pnr.py.
--   RateLimiter, Verification: core/security/rate_limiter.py and verification.py.
--   Access: core/security/rbac.py, actor.py, ownership.py with errors.py, and vapi_authorization.py.
--   Actions: sequence and the shared steps of code on a state of any type.
--   VerificationService: services/verification_service.py with models/verification.py and
--     repositories/verification_repository.py. Opens is about what a token opens after a submission.
--   Auth: models/user.py, session.py and tokens.py with their repositories; Auth/Accounts
--     services/auth_service.py, Auth/Sessions services/session_service.py, Auth/PasswordPolicy
--     core/security/password_policy.py, Auth/Csrf core/security/csrf.py, and Auth/Requests
--     api/deps_auth.py with the reads of services/rbac_service.py.
--   Vapi: Vapi/Arguments core/vapi/argument_mapping.py, on parsed JSON (Vapi/Json); Vapi/Tools the
--     tables of core/vapi/tool_schemas.py; Vapi/Calls `_handle_one_tool_call` of api/routes/vapi.py with
--     repositories/tool_execution_repository.py, where Calls/Once is about deliveries, Calls/Verified
--     and Calls/Served are about authorization; Vapi/Dispatch the functions of `_DISPATCH` for tools
--     that name a booking; Vapi/WebhookAuth core/security/vapi_webhook_auth.py, where
--     WebhookAuth/Presented is about where a request presents the secret.
--   Tests: data, and the theorems at concrete inputs.
--
-- State and operations. A table is a list of rows, the newest first. An object that the session holds
-- is its row: setting a field is an update of the row by its id. `flush` is where a unique column
-- refuses a row; `commit` and `rollback` copy one of the two views over the other. A method is split
-- where the source has a condition, an early return or a `try`, and each part keeps its name's words.
--
-- Numbers. Amounts are signed integers in minor units (the columns have two decimals), times are whole
-- seconds. No fuel is used but in Pnr, where it is the source's own bound of 25 attempts: more is never
-- needed, since the loop ends there.
--
-- Texts. `strip`, `lower` and `upper` (Prelude/Text) are those of Python on ASCII; a password is
-- walked by its code points. The comparison of the webhook's secret raises on texts that are not
-- ASCII, as `hmac.compare_digest` does; that of a CSRF token is the one of ASCII texts. Numbers in
-- the arguments of a tool are natural numbers.
--
-- Simplifications. A notifier is what it writes to the audit log; it never raises, as the source
-- catches everything around it. A failed refund during a cancellation is logged with the code of
-- the exception in place of its message. The time that a call takes is not kept. The verification
-- token of a service's request is the caller's business. The row of a tool call is a row of the
-- session: a rollback in a service undoes what was flushed to it, and the handler then saves it again.
-- The tables of verification sessions and of accounts stand beside that session, so that a rollback
-- in a service of bookings or payments does not undo an uncommitted row of theirs.
--
-- Not modelled: the HTTP routes, schemas' field checks, configuration and logging (glue); Stripe,
-- Amadeus, Sabre, Redis, e-mail and text messages (third-party services); the random flights of the
-- mock airline and its search (a seeded generator); JSON of the mock's webhook; the hashes of
-- passwords and encryption (libraries; the hasher is an interface); the verification of an e-mail
-- address and the administration of roles; the endpoint around the handler of tool calls and the
-- dispatch of the tools that search, create a booking or add a passenger, redaction, notifications'
-- content, dates and analytics (planned); migrations, the web front end, scripts.
pub mod Prelude
pub mod StateMachine
pub mod RateLimiter
pub mod Verification
pub mod Access
pub mod Errors
pub mod Models
pub mod Idempotency
pub mod Database
pub mod PaymentProvider
pub mod Services
pub mod PaymentService
pub mod AirlineProvider
pub mod CancellationService
pub mod MockPayments
pub mod Pnr
pub mod BookingService
pub mod PassengerService
pub mod MockAirline
pub mod Actions
pub mod VerificationService
pub mod Auth
pub mod Vapi
pub mod Tests
