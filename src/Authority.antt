-- ===== src/Authority.antt =====
-- internal/personalauthority: commands, the log, and the state.
pub mod Engine
pub mod Advance
pub mod Ledger
pub mod Accepted
pub mod Replays
