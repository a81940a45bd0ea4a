-- ===== src/Client.antt =====
-- client/lease.py: a client's lease, from its request to its end.
pub mod Conditions
pub mod Acquire
pub mod Dial
pub mod Expiry
pub mod Selectors
