-- ===== src/Events.antt =====
-- The relay of the outbox (backend/src/events).
mod Tests
pub mod Relay
