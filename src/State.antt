-- ===== src/State.antt =====
-- packages/storage/state-validation.ts: what a ledger accepts into its state. A key is kept as its
-- kind and its decoded parts: the text of a key is `stateKey` of these, and any other text is refused.
pub mod Writes
pub mod Links
pub mod Binding
pub mod Unanimity
pub mod Journal
pub mod Chain
