-- ===== src/Model/State.antt =====
-- internal/model/model.go: the entities and the project state. A field that is a Go pointer to a time
-- is an optional number; `Event` holds the fields that the projection reads.
use agent_comms.Base.{ℕ, zero, suc, ◌*◌, String, ◌==◌, Bool, false, Option, List, [], if◌then◌else◌}
use agent_comms.Base.Map.{Map}
use agent_comms.Model.Payloads.{RecipientState, DeliveryEvidence, Payload}

pub record EntityClock : Type 0 where
  pub created_at : ℕ
  pub updated_at : ℕ
  pub created_sequence : ℕ
  pub updated_sequence : ℕ

pub record Agent : Type 0 where
  pub clock : EntityClock
  pub id : String
  pub display_name : String
  pub status : String
  pub role : String
  pub principal_type : String
  pub public_key : String
  pub key_fingerprint : String
  pub capabilities : List String
  pub scopes : List String
  pub elevated_public_key : String
  pub elevated_key_fingerprint : String

pub record Offer : Type 0 where
  pub id : String
  pub to : String
  pub expires_at : ℕ
  pub status : String

pub record Task : Type 0 where
  pub clock : EntityClock
  pub id : String
  pub title : String
  pub summary : String
  pub status : String
  pub owner : String
  pub repository : String
  pub branch : String
  pub worktree : String
  pub resources : List String
  pub external_ref : String
  pub risk : String
  pub lease_until : ℕ
  pub stale_until : ℕ
  pub handoff_to : String
  pub offers : List Offer
  pub completed_at : Option ℕ
  pub archived : Bool

pub record Message : Type 0 where
  pub id : String
  pub kind : String
  pub from : String
  pub to : List String
  pub subject : String
  pub body : String
  pub task_id : String
  pub status : String
  pub recipients : List RecipientState
  pub clock : EntityClock

pub record Invocation : Type 0 where
  pub id : String
  pub requested_by : String
  pub target : String
  pub message_id : String
  pub task_id : String
  pub instruction : String
  pub expected_result : String
  pub scopes : List String
  pub priority : String
  pub consumer_mode : String
  pub preferred_runtime_id : String
  pub status : String
  pub clock : EntityClock
  pub deadline : Option ℕ
  pub claimed_by : String
  pub claimed_at : Option ℕ
  pub runtime_id : String
  pub claim_until : Option ℕ
  pub started_at : Option ℕ
  pub completed_at : Option ℕ
  pub next_attempt_at : Option ℕ
  pub result_message_id : String
  pub summary : String
  pub reason : String

pub record InvocationDelivery : Type 0 where
  pub id : String
  pub invocation_id : String
  pub runtime_id : String
  pub transport : String
  pub host_id : String
  pub endpoint_id : String
  pub attempt : ℕ
  pub manual : Bool
  pub status : String
  pub attempted_at : Option ℕ
  pub attempt_until : Option ℕ
  pub notified_at : Option ℕ
  pub failed_at : Option ℕ
  pub next_retry_at : Option ℕ
  pub evidence : List DeliveryEvidence
  pub error : String

pub record InteractiveSessionState : Type 0 where
  pub local : Bool
  pub alive : Bool
  pub busy : Bool
  pub socket_path : String

pub record AgentRuntime : Type 0 where
  pub id : String
  pub agent_id : String
  pub kind : String
  pub connector : String
  pub config_reference : String
  pub host_id : String
  pub endpoint_id : String
  pub status : String
  pub health : String
  pub max_concurrent : ℕ
  pub active_invocations : List String
  pub scopes : List String
  pub capabilities : List String
  pub registered_at : ℕ
  pub clock : EntityClock
  pub last_seen_at : ℕ
  pub last_changed_by : String
  pub reason : String
  pub interactive_session : Option InteractiveSessionState

pub record InvocationPolicy : Type 0 where
  pub agent_id : String
  pub mode : String
  pub trusted_actors : List String
  pub allowed_scopes : List String
  pub default_consumer_mode : String
  pub allowed_consumer_modes : List String
  pub preferred_interactive_runtime_id : String
  pub require_human_for_sensitive : Bool
  pub updated_by : String
  pub clock : EntityClock

pub record Approval : Type 0 where
  pub clock : EntityClock
  pub id : String
  pub tier : String
  pub action : String
  pub subject_digest : String
  pub subject : String
  pub reason : String
  pub status : String
  pub requester : String
  pub affected : List String
  pub expires_at : Option ℕ
  pub approver : String

pub record Artifact : Type 0 where
  pub created_at : ℕ
  pub created_sequence : ℕ
  pub sha256 : String
  pub size : ℕ
  pub name : String
  pub media_type : String
  pub storage : String

pub record Document : Type 0 where
  pub clock : EntityClock
  pub id : String
  pub title : String
  pub body : String
  pub tags : List String
  pub status : String
  pub version : ℕ
  pub author : String
  pub supersedes : String

pub record EnvEntry : Type 0 where
  pub key : String
  pub value : String
  pub clock : EntityClock
  pub updated_by : String

pub record Provider : Type 0 where
  pub clock : EntityClock
  pub name : String
  pub display_name : String
  pub description : String
  pub status : String
  pub added_by : String
  pub retired_by : String
  pub retire_reason : String

pub record ProjectSettings : Type 0 where
  pub default_lease : String
  pub stale_grace : String
  pub active_retention : String
  pub summary_limit : ℕ
  pub artifact_limit_bytes : ℕ
  pub require_review : Bool
  pub updated_by : String
  pub updated_at : ℕ

abbrev pub default_project_settings : ProjectSettings
default_project_settings = record {
  default_lease = "4h";
  stale_grace = "1h";
  active_retention = "168h";
  summary_limit = 1200;
  artifact_limit_bytes = 5 * 1024 * 1024;
  require_review = false;
  updated_by = "";
  updated_at = 0;
}

abbrev or_text : String → String → String
or_text s d = if s == "" then d else s

abbrev or_number : ℕ → ℕ → ℕ
or_number zero d = d
or_number (suc n) d = suc n

unfoldable pub effective_project_settings : ProjectSettings → ProjectSettings
effective_project_settings s = record s {
  default_lease = or_text s.default_lease defaults.default_lease;
  stale_grace = or_text s.stale_grace defaults.stale_grace;
  active_retention = or_text s.active_retention defaults.active_retention;
  summary_limit = or_number s.summary_limit defaults.summary_limit;
  artifact_limit_bytes = or_number s.artifact_limit_bytes defaults.artifact_limit_bytes;
}
  where
    defaults : ProjectSettings
    defaults = default_project_settings

-- `Integrity` of the source is written by readers of the state, not by events, and is left out.
pub record State : Type 0 where
  pub agents : Map Agent
  pub tasks : Map Task
  pub messages : Map Message
  pub invocations : Map Invocation
  pub deliveries : Map InvocationDelivery
  pub runtimes : Map AgentRuntime
  pub policies : Map InvocationPolicy
  pub approvals : Map Approval
  pub documents : Map Document
  pub env : Map EnvEntry
  pub artifacts : Map Artifact
  pub providers : Map Provider
  pub project_settings : ProjectSettings

abbrev pub empty_state : State
empty_state = record {
  agents = [];
  tasks = [];
  messages = [];
  invocations = [];
  deliveries = [];
  runtimes = [];
  policies = [];
  approvals = [];
  documents = [];
  env = [];
  artifacts = [];
  providers = [];
  project_settings = default_project_settings;
}

-- An event with its payload decoded; the hashes are the log's.
pub record Event : Type 0 where
  pub id : String
  pub sequence : ℕ
  pub time : ℕ
  pub actor : String
  pub typ : String
  pub entity_id : String
  pub payload : Payload
