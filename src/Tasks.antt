-- ===== src/Tasks.antt =====
-- What the validator and the projection together guarantee of tasks.
pub mod Claim
pub mod Exclusive
pub mod Review
pub mod Stranded
pub mod Offer
pub mod Takeover
