-- ===== src/RateLimit.antt =====
-- internal/ratelimit/ratelimit.go: the two-tier limiter, local or over Redis, and the limiter per address.
pub mod Bucket
pub mod Limiter
pub mod PerIp
pub mod Window
pub mod Fleet
pub mod Tokens
pub mod Minutes
pub mod Answers
pub mod OverLimit
mod Tests
