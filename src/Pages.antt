-- ===== src/Pages.antt =====
-- The pages of a project's events, and the loops that follow them.
pub mod Events
pub mod Selected
pub mod Export
pub mod Sync
