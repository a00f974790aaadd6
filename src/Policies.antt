-- ===== src/Policies.antt =====
-- src/domain/policies.ts: the rules of the service, one child for each group of them.
pub mod Phone
pub mod Intents
pub mod Places
pub mod Items
pub mod Parties
pub mod Questions
pub mod Status
pub mod Wording
pub mod Readiness
pub mod Calendar
