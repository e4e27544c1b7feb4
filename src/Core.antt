-- ===== src/Core.antt =====
-- pulsepay/core: the exceptions that the services raise, and the settings.
pub mod Exceptions
pub mod Config
