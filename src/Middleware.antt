-- ===== src/Middleware.antt =====
-- internal/middleware.
pub mod RateLimiter
pub mod Security
pub mod Idempotency
pub mod Auth
pub mod Stack
pub mod Writer
