-- ===== src/Ratelimit.antt =====
-- pulsepay/ratelimit: the token buckets and the middleware that consults them.
pub mod Store
pub mod Bounds
pub mod Window
pub mod Middleware
pub mod Served
pub mod Retry
