-- ===== src/Routes.antt =====
-- Routes with rules of their own (backend/src/routes).
mod Tests
pub mod PaymentsWebhook
