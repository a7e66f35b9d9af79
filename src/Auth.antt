-- ===== src/Auth.antt =====
-- Signing in with a code (backend/src/domain/otp.js, backend/src/commands/auth.js).
mod Tests
pub mod Otp
pub mod Challenges
pub mod Links
pub mod Passwords
