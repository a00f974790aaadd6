-- ===== src/Store.antt =====
-- src/infrastructure/store.ts: the tables, and the transactions over them.
pub mod Tables
pub mod Requests
pub mod Outbox
pub mod Transport
pub mod Approval
pub mod Matches
pub mod Regions
