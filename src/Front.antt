-- ===== src/Front.antt =====
-- The pages' shared rules (frontend/shared).
mod Tests
pub mod Phone
