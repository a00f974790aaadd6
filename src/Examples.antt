-- ===== src/Examples.antt =====
-- The theorems at concrete requests: a sofa that goes from its donor to a receiver in Beit Shean.
mod Data
mod Transport
mod Rows
mod Turns
mod Rules
mod Replies
mod Deliveries
mod Media
mod Messages
