-- ===== src/Http.antt =====
-- packages/http of the program: the close of an HTTP server.
pub mod Close
pub mod Bounds
pub mod Settled
pub mod Ends
