-- ===== src/Client.antt =====
-- packages/client of the program: the guarded generation.
pub mod Guarded
pub mod Released
