-- ===== src/Tests.antt =====
-- Witnesses at concrete inputs, and tests of the definitions.
mod Data
mod Payments
mod Bookings
mod Providers
mod Access
mod Limits
mod People
mod Accounts
mod Visitors
mod Voice
mod Dispatch
