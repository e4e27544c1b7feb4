-- ===== src/Example.antt =====
-- A concrete platform, and the theorems at concrete inputs.
pub mod ListTable
pub mod Server
pub mod Payments
mod Refunds
mod Jobs
mod Limiter
mod Webhooks
mod Deliveries
mod Api
pub mod System
mod Observability
mod Schema
mod Startup
mod Seed
mod Retry
