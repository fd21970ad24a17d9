-- ===== src/Projection.antt =====
-- internal/projection: the state that a history of signed events stands for.
pub mod Stamp
pub mod Consume
pub mod Agents
pub mod Tasks
pub mod Messages
pub mod Invocations
pub mod Runtimes
pub mod Governance
pub mod Apply
