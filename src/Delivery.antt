-- ===== src/Delivery.antt =====
-- The delivery of review messages: packages/review/delivery-contract.ts and delivery-worker.ts, and
-- packages/storage/review-delivery-store.ts.
pub mod Packet
pub mod Outbox
pub mod Inbox
pub mod Worker
pub mod Leases
pub mod Steps
pub mod Drain
