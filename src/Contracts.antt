-- ===== src/Contracts.antt =====
-- internal/controlplane/contracts.go: what the control plane's parts exchange.
pub mod Types
pub mod Signing
pub mod Pages
pub mod Errors
