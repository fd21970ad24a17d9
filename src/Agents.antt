-- ===== src/Agents.antt =====
-- What the validator and the projection together guarantee of agents.
pub mod Grant
pub mod Revoke
pub mod Fresh
