-- ===== src/Middleware.antt =====
-- What stands before the handlers (backend/src/middleware): the limits, the tokens and the guards.
mod Tests
pub mod RateLimit
pub mod Session
