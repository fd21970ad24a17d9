-- ===== src/Service.antt =====
-- internal/service/service.go: which invocation an agent is given, and what became of its delivery.
pub mod Select
pub mod Ranks
pub mod Best
pub mod Modes
pub mod Claimable
pub mod Outcomes
pub mod Latest
pub mod Retry
pub mod Tries
