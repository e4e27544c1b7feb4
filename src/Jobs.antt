-- ===== src/Jobs.antt =====
-- pulsepay/jobs: StormQueue, the handlers and the worker.
pub mod Models
pub mod Queue
pub mod Frame
pub mod Handlers
pub mod Worker
pub mod Tasks
pub mod Returns
pub mod Phase
pub mod Lifecycle
pub mod Retries
pub mod DeadLetter
pub mod Schedule
pub mod Cancelled
pub mod Uncommitted
pub mod Overtaken
pub mod Listing
pub mod FollowUp
