-- ===== src/Transactions.antt =====
-- The transaction-scoped file store: backend/app/transactions.
pub mod Status
pub mod Ids
pub mod Generated
pub mod Store
pub mod Decisions
