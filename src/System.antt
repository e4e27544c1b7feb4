-- ===== src/System.antt =====
-- The process as a whole: requests, the worker and the poller, in any order.
pub mod Soundness
pub mod Sessions
pub mod Handlers
pub mod Routes
pub mod Run
pub mod Refinement
