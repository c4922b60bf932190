-- ===== src/Commands.antt =====
-- The commands of packages/domain/index.ts: `performCommand` and what it calls, `bootstrap` and
-- `execute`. Each is a function from the store to a reply and a new store.
pub mod Replies
pub mod Publish
pub mod Propose
pub mod Suspension
pub mod Decide
pub mod Activate
pub mod Status
pub mod Fence
pub mod Execute
pub mod Frames
pub mod Idempotency
pub mod History
pub mod Collected
pub mod Planned
pub mod Activation
pub mod Withdrawal
pub mod Objection
