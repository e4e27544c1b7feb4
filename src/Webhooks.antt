-- ===== src/Webhooks.antt =====
-- pulsepay/webhooks: endpoints, events and their delivery.
pub mod Models
pub mod Dispatcher
pub mod Frame
pub mod Preserves
pub mod Delivery
pub mod Retries
pub mod Service
pub mod Registration
pub mod Listing
