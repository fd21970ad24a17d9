-- ===== src/Cache.antt =====
-- internal/localcache/cache.go: the copy of the log and the state that a client keeps.
pub mod Store
pub mod Rows
pub mod Chain
pub mod Again
pub mod Ranges
pub mod Rebuilt
