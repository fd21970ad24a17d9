-- ===== src/Drafts.antt =====
-- internal/draftstore/store.go, and the drafts of internal/localcache/cache.go.
pub mod Store
pub mod Quota
pub mod Saved
