-- ===== src/Payments/Service.antt =====
-- pulsepay/payments/service.py: `PaymentService`.
mod Rows
mod Creation
mod Confirmation
unfoldable pub use Rows.*
unfoldable pub use Creation.*
unfoldable pub use Confirmation.*
