-- ===== src/Commands.antt =====
-- The write side (backend/src/commands).
pub mod Tests
pub mod Orders
pub mod Refunds
pub mod Dispatch
pub mod Payments
pub mod Proofs
pub mod Photos
pub mod System
