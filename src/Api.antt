-- ===== src/Api.antt =====
-- The API: what a request is, what its handler answers, and the stack of middlewares around it.
pub mod Schemas
pub mod Envelope
pub mod Payments
pub mod Refunds
pub mod Webhooks
pub mod Routes
pub mod Errors
pub mod Server
pub mod Tracing
