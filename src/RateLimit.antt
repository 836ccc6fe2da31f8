-- ===== src/RateLimit.antt =====
-- Rate limits by kind of request and address (lemmy_rate_limit/src).
pub mod Limiter
pub mod Wrap
pub mod Inserts
pub mod Buckets
pub mod Allowance
pub mod Requests
pub mod Whole
mod Tests
