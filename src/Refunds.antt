-- ===== src/Refunds.antt =====
-- pulsepay/refunds: the refund rows and the service.
pub mod Models
pub mod Service
pub mod Conservation
pub mod Frame
pub mod Listing
pub mod Replay
pub mod Process
pub mod Race
