-- ===== src/Messages.antt =====
-- What the validator and the projection together guarantee of messages.
pub mod Steps
pub mod Responses
