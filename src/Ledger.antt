-- ===== src/Ledger.antt =====
-- The state that the commands of packages/domain/index.ts read and write.
pub mod Keys
pub mod Store
pub mod Laws
