-- ===== src/Examples.antt =====
-- A small world with one policy and one representative, and the commands of packages/domain/index.ts
-- run in it.
pub mod World
pub mod Runs
pub mod Applied
mod Browsing
mod Delivering
mod Closing
mod Generating
