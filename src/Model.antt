-- ===== src/Model.antt =====
-- internal/model: payloads, entities, project state.
pub mod Payloads
pub mod State
pub mod Zero
pub mod EventTypes
pub mod Providers
pub mod ActorIds
