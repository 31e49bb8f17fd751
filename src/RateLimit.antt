-- ===== src/RateLimit.antt =====
-- The rate limits of the login and token endpoints (crates/server/src/rate_limit.rs).
pub mod Limiter
pub mod Bounds
pub mod Isolation
pub mod Examples
