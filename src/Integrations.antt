-- ===== src/Integrations.antt =====
-- The consumer integration: backend/app/integrations.
pub mod Index
pub mod Consumers
pub mod Attempts
pub mod Session
pub mod Launch
pub mod Callback
pub mod Auth
pub mod StatusQuery
pub mod Api
pub mod Redeem
