-- ===== src/Invocations.antt =====
-- What the validator and the projection together guarantee of invocations.
pub mod Capacity
pub mod Claim
pub mod Delivered
pub mod Expiry
pub mod Attempts
