-- ===== src/Settings.antt =====
-- What the checks of settings, scopes and evidence guarantee.
pub mod Bounds
pub mod Paths
