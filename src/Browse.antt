-- ===== src/Browse.antt =====
-- The browse index of packages/storage/browse-index.ts: references to the committed records, in the
-- order of their publication, with a cache of the selections.
pub mod Sort
pub mod Order
pub mod Refs
pub mod Comparators
pub mod Merge
pub mod Distinct
pub mod Indexed
pub mod Merged
pub mod Complete
pub mod State
pub mod Prepared
pub mod Query
pub mod Consistent
pub mod Cache
pub mod Entries
pub mod Stale
pub mod Eviction
pub mod Index
pub mod Coherence
pub mod Refinement
