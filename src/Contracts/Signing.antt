-- ===== src/Contracts/Signing.antt =====
-- internal/controlplane/contracts.go: HashEvent, VerifyEventHash and VerifyReceipt. The payload comes
-- decoded, so the tests that its text is there and is valid JSON have passed.
use agent_comms.Base.{ℕ, String, Bool, not, ◌&&◌, ◌||◌, ◌==◌, leb}
use text.Mathlib.Text.{starts_with}
use agent_comms.Model.Payloads.{Payload}
use agent_comms.Contracts.Types.{SignedEvent, Receipt}

pub record EventCanonical : Type 0 where
  pub project_id : String
  pub sequence : ℕ
  pub id : String
  pub time : ℕ
  pub actor : String
  pub actor_key_fingerprint : String
  pub typ : String
  pub entity_id : String
  pub payload_hash : String
  pub previous_hash : String
  pub actor_intent_hash : String
  pub idempotency_key : String
  pub legacy : Bool

-- The libraries: the hexadecimal SHA-256 of the JSON text of a payload and of a canonical event, and
-- the ed25519 test of the base64 texts of a public key and a signature over a receipt's JSON text.
pub record Signing : Type 0 where
  pub payload_sha256 : Payload → String
  pub event_sha256 : EventCanonical → String
  pub verify_signature : String → Receipt → String → Bool

abbrev pub is_legacy : SignedEvent → Bool
is_legacy e = starts_with e.idempotency_key "legacy:"

unfoldable pub hash_event : Signing → SignedEvent → String
hash_event sg e = sg.event_sha256 (record {
  project_id = e.project_id;
  sequence = e.sequence;
  id = e.id;
  time = e.time;
  actor = e.actor;
  actor_key_fingerprint = e.actor_key_fingerprint;
  typ = e.typ;
  entity_id = e.entity_id;
  payload_hash = sg.payload_sha256 e.payload;
  previous_hash = e.previous_hash;
  actor_intent_hash = e.actor_intent_hash;
  idempotency_key = e.idempotency_key;
  legacy = is_legacy e;
})

-- A field that every imported event has is missing.
abbrev pub lacks_legacy_field : SignedEvent → Bool
lacks_legacy_field e =
    e.project_id == ""
    || leb e.sequence 0
    || e.id == ""
    || leb e.time 0
    || e.actor == ""
    || e.typ == ""
    || e.actor_intent_hash == ""

unfoldable pub verify_event_hash : Signing → SignedEvent → Bool
unfolding hash_event
verify_event_hash sg e = not (is_legacy e && lacks_legacy_field e) && hash_event sg e == e.hash

-- The signature stands over the receipt without it.
unfoldable pub verify_receipt : Signing → Receipt → String → Bool
verify_receipt sg receipt public_key =
    sg.verify_signature public_key (record receipt { signature = "" }) receipt.signature
