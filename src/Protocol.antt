-- ===== src/Protocol.antt =====
-- internal/protocol: the transition validator.
pub mod Result
pub mod Scopes
pub mod Standing
pub mod Approvals
pub mod Consumers
pub mod Evidence
pub mod Cast
pub mod Agents
pub mod Settings
pub mod Tasks
pub mod Messages
pub mod Invocations
pub mod Runtimes
pub mod Governance
pub mod Validate
