-- ===== src/Payments.antt =====
-- pulsepay/payments: the payment rows, their state machine and the service.
pub mod Models
pub mod StateMachine
pub mod Service
pub mod Machine
pub mod Progress
pub mod Lookup
pub mod Lifecycle
pub mod Started
pub mod Outcomes
pub mod Advance
pub mod Attempts
pub mod Termination
pub mod Returned
pub mod Readback
pub mod Clean
pub mod Confirm
pub mod Listing
pub mod Frame
pub mod Create
pub mod Idempotency
