-- ===== src/Offline.antt =====
-- What the driver's app writes while it has no connection (frontend/shared).
mod Tests
pub mod Policy
pub mod Queue
