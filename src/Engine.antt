-- ===== src/Engine.antt =====
-- src/application/engine.ts: the turn of a message, after its plan was made.
pub mod Ordering
pub mod Scheduling
pub mod Sending
