-- ===== src/Contracts.antt =====
-- The records of packages/domain/index.ts, each with the check that reads it from JSON and the JSON
-- that is written for it.
pub mod Identifiers
pub mod Slot
pub mod SlotKeys
pub mod Actor
pub mod Revision
pub mod Policy
pub mod Config
pub mod Proposal
pub mod Decision
pub mod Agreement
pub mod Slotted
