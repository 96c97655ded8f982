-- ===== src/AuthLimit.antt =====
-- The rate limit of password verifications: the table auth_rate_limits of worker/db.ts and
-- worker/auth-rate-limit.ts.
pub mod Row
pub mod Run
pub mod Store
pub mod Service
pub mod Retry
pub mod Tests
