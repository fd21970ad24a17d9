-- ===== src/Delivery.antt =====
-- internal/daemon/connectors.go: the dispatcher, which delivers open invocations to runtimes.
pub mod Attempts
pub mod Configs
pub mod Select
pub mod Dispatch
pub mod Agreement
pub mod Backoff
pub mod Selected
pub mod Passes
pub mod Accepted
