-- ===== src/Domain.antt =====
-- The pure rules (backend/src/domain): no database, no HTTP.
mod Tests
pub mod StateMachine
pub mod Access
pub mod Rotation
pub mod Ids
pub mod Phone
pub mod PaymentRef
pub mod Evidence
pub mod Wallets
pub mod Email
pub mod Ussd
pub mod Webhook
pub mod Redact
