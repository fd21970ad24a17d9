-- ===== src/Contracts/Types.antt =====
-- internal/controlplane/contracts.go: events as the log keeps them, receipts, pages and drafts. A body
-- is its text and its length in bytes; the payload of an event comes decoded.
use agent_comms.Base.{ℕ, String, List}
use agent_comms.Base.Integers.{ℤ}
use agent_comms.Model.Payloads.{Payload}
use agent_comms.Model.State.{Event}

pub record SignedEvent : Type 0 where
  pub project_id : String
  pub sequence : ℕ
  pub id : String
  pub time : ℕ
  pub actor : String
  pub actor_key_fingerprint : String
  pub typ : String
  pub entity_id : String
  pub payload : Payload
  pub previous_hash : String
  pub hash : String
  pub actor_intent_hash : String
  pub idempotency_key : String

pub record Receipt : Type 0 where
  pub project_id : String
  pub sequence : ℕ
  pub event_id : String
  pub event_hash : String
  pub actor_intent_hash : String
  pub committed_at : ℕ
  pub key_fingerprint : String
  pub signature : String

pub record EventRecord : Type 0 where
  pub event : SignedEvent
  pub receipt : Receipt

pub record PageRequest : Type 0 where
  pub cursor : String
  pub limit : ℤ

pub record ResultMetadata : Type 0 where
  pub consistency : String
  pub server_sequence : ℕ
  pub cache_sequence : ℕ
  pub connectivity : String

pub record EventPage : Type 0 where
  pub items : List EventRecord
  pub next_cursor : String
  pub metadata : ResultMetadata

pub record Draft : Type 0 where
  pub project_id : String
  pub id : String
  pub kind : String
  pub body : String
  pub body_bytes : ℕ
  pub created_at : ℕ
  pub updated_at : ℕ

-- The event that the projection reads.
abbrev pub model_event : SignedEvent → Event
model_event e = record {
  id = e.id;
  sequence = e.sequence;
  time = e.time;
  actor = e.actor;
  typ = e.typ;
  entity_id = e.entity_id;
  payload = e.payload;
}
