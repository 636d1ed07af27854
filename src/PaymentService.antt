-- ===== src/PaymentService.antt =====
-- PaymentService: apps/api/app/services/payment_service.py. A method takes its environment (the
-- clock, the ids that the database assigns, the caller) and returns its result or exception with
-- the new state of the session, the idempotency store and the provider.
pub mod Create
pub mod Refund
pub mod Webhook
