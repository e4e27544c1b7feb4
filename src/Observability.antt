-- ===== src/Observability.antt =====
-- pulsepay/observability: the figures of the metrics page and the lines of the log.
pub mod Metrics
pub mod Logging
pub mod Setup
