-- ===== src/Vapi.antt =====
-- The channel of the voice assistant: apps/api/app/core/vapi/ and api/routes/vapi.py.
pub mod WebhookAuth
pub mod Json
pub mod Arguments
pub mod Tools
pub mod Calls
pub mod Dispatch
