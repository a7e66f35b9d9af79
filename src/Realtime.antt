-- ===== src/Realtime.antt =====
-- The live connections of the pages (backend/src/realtime).
mod Tests
pub mod Sockets
