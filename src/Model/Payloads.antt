-- ===== src/Model/Payloads.antt =====
-- internal/model/payloads.go: the payload of each event type. Times are nanoseconds since Go's zero
-- time, which is 0; an optional time is a pointer in the source. Counts are not negative.
use agent_comms.Base.{ℕ, String, Bool, Option, List}

pub record AgentRegistered : Type 0 where
  pub public_key : String
  pub principal_type : String
  pub display_name : String

pub record AgentActivated : Type 0 where
  pub role : String
  pub capabilities : List String
  pub scopes : List String

pub record AgentRoleSwitched : Type 0 where
  pub role : String

pub record AgentKeyRotated : Type 0 where
  pub public_key : String
  pub previous_fingerprint : String

pub record AgentElevatedKeyRegistered : Type 0 where
  pub public_key : String

pub record AgentRenamed : Type 0 where
  pub display_name : String

pub record AgentDeleted : Type 0 where
  pub reason : String

pub record TaskCreated : Type 0 where
  pub title : String
  pub summary : String
  pub repository : String
  pub branch : String
  pub worktree : String
  pub resources : List String
  pub external_ref : String
  pub risk : String

pub record TaskOffered : Type 0 where
  pub to : String
  pub expires_at : ℕ

pub record TaskClaimed : Type 0 where
  pub lease_until : ℕ
  pub offer_id : String
  pub worktree : String

pub record TaskRenewed : Type 0 where
  pub lease_until : ℕ
  pub progress : String

pub record TaskHandoff : Type 0 where
  pub to : String
  pub summary : String

pub record TaskStatus : Type 0 where
  pub summary : String
  pub evidence : List String
  pub reviewer : String
  pub approval_id : String

pub record RecipientState : Type 0 where
  pub principal : String
  pub status : String
  pub at : Option ℕ

pub record MessagePosted : Type 0 where
  pub kind : String
  pub to : List String
  pub subject : String
  pub body : String
  pub task_id : String

pub record MessageResponse : Type 0 where
  pub response : String
  pub note : String

pub record InvocationRequested : Type 0 where
  pub target : String
  pub message_id : String
  pub task_id : String
  pub instruction : String
  pub expected_result : String
  pub scopes : List String
  pub priority : String
  pub consumer_mode : String
  pub preferred_runtime_id : String
  pub deadline : Option ℕ

pub record DeliveryEvidence : Type 0 where
  pub stage : String
  pub at : ℕ

pub record InvocationDeliveryAttempted : Type 0 where
  pub delivery_id : String
  pub runtime_id : String
  pub transport : String
  pub host_id : String
  pub endpoint_id : String
  pub attempt : ℕ
  pub manual : Bool
  pub attempt_until : ℕ

pub record InvocationNotified : Type 0 where
  pub delivery_id : String
  pub runtime_id : String
  pub attempt : ℕ
  pub transport : String
  pub endpoint_id : String
  pub evidence : List DeliveryEvidence

pub record InvocationClaimed : Type 0 where
  pub runtime_id : String
  pub claim_until : ℕ

pub record InvocationProgress : Type 0 where
  pub summary : String

pub record InvocationWaiting : Type 0 where
  pub reason : String
  pub next_attempt_at : Option ℕ

pub record InvocationCompleted : Type 0 where
  pub result_message_id : String
  pub summary : String

pub record InvocationRejected : Type 0 where
  pub reason : String

pub record InvocationDeliveryFailed : Type 0 where
  pub delivery_id : String
  pub runtime_id : String
  pub attempt : ℕ
  pub error : String
  pub next_retry : Option ℕ
  pub final : Bool

pub record RuntimeRegistered : Type 0 where
  pub agent_id : String
  pub kind : String
  pub connector : String
  pub config_reference : String
  pub host_id : String
  pub max_concurrent : ℕ
  pub scopes : List String
  pub capabilities : List String

pub record RuntimeConfigured : Type 0 where
  pub kind : String
  pub connector : String
  pub config_reference : String
  pub host_id : String
  pub max_concurrent : ℕ
  pub scopes : List String
  pub capabilities : List String

pub record RuntimeHeartbeat : Type 0 where
  pub health : String
  pub endpoint_id : String
  pub active_invocations : List String

pub record RuntimeStatusChanged : Type 0 where
  pub reason : String
  pub endpoint_id : String

pub record InvocationPolicyUpdated : Type 0 where
  pub mode : String
  pub trusted_actors : List String
  pub allowed_scopes : List String
  pub default_consumer_mode : String
  pub allowed_consumer_modes : List String
  pub preferred_interactive_runtime_id : String
  pub require_human_for_sensitive : Bool

pub record ProjectSettingsUpdated : Type 0 where
  pub default_lease : String
  pub stale_grace : String
  pub active_retention : String
  pub summary_limit : ℕ
  pub artifact_limit_bytes : ℕ
  pub require_review : Bool

pub record ProviderRegistered : Type 0 where
  pub display_name : String
  pub description : String

pub record ProviderRetired : Type 0 where
  pub reason : String

pub record ApprovalRequested : Type 0 where
  pub tier : String
  pub action : String
  pub subject_digest : String
  pub subject : String
  pub reason : String
  pub affected : List String
  pub expires_at : Option ℕ

pub record ApprovalResponse : Type 0 where
  pub note : String

pub record DecisionPayload : Type 0 where
  pub title : String
  pub statement : String
  pub supersedes : String
  pub to : List String

pub record ArtifactAdded : Type 0 where
  pub sha256 : String
  pub size : ℕ
  pub name : String
  pub media_type : String
  pub storage : String

pub record ArchiveRun : Type 0 where
  pub before : ℕ
  pub task_ids : List String

pub record EnvSetPayload : Type 0 where
  pub key : String
  pub value : String

pub record EnvDeletePayload : Type 0 where
  pub key : String

pub record DocumentPayload : Type 0 where
  pub title : String
  pub body : String
  pub tags : List String
  pub replacement_id : String

-- What `DecodePayloadValue` returns: a value of one of the types above, read by a type switch.
pub data Payload : Type 0 where
  agent_registered : AgentRegistered → Payload
  agent_activated : AgentActivated → Payload
  agent_role_switched : AgentRoleSwitched → Payload
  agent_key_rotated : AgentKeyRotated → Payload
  agent_elevated_key_registered : AgentElevatedKeyRegistered → Payload
  agent_renamed : AgentRenamed → Payload
  agent_deleted : AgentDeleted → Payload
  task_created : TaskCreated → Payload
  task_offered : TaskOffered → Payload
  task_claimed : TaskClaimed → Payload
  task_renewed : TaskRenewed → Payload
  task_handoff : TaskHandoff → Payload
  task_status : TaskStatus → Payload
  message_posted : MessagePosted → Payload
  message_response : MessageResponse → Payload
  invocation_requested : InvocationRequested → Payload
  invocation_delivery_attempted : InvocationDeliveryAttempted → Payload
  invocation_notified : InvocationNotified → Payload
  invocation_claimed : InvocationClaimed → Payload
  invocation_progress : InvocationProgress → Payload
  invocation_waiting : InvocationWaiting → Payload
  invocation_completed : InvocationCompleted → Payload
  invocation_rejected : InvocationRejected → Payload
  invocation_delivery_failed : InvocationDeliveryFailed → Payload
  runtime_registered : RuntimeRegistered → Payload
  runtime_configured : RuntimeConfigured → Payload
  runtime_heartbeat : RuntimeHeartbeat → Payload
  runtime_status_changed : RuntimeStatusChanged → Payload
  invocation_policy_updated : InvocationPolicyUpdated → Payload
  project_settings_updated : ProjectSettingsUpdated → Payload
  provider_registered : ProviderRegistered → Payload
  provider_retired : ProviderRetired → Payload
  approval_requested : ApprovalRequested → Payload
  approval_response : ApprovalResponse → Payload
  decision_payload : DecisionPayload → Payload
  artifact_added : ArtifactAdded → Payload
  archive_run : ArchiveRun → Payload
  env_set_payload : EnvSetPayload → Payload
  env_delete_payload : EnvDeletePayload → Payload
  document_payload : DocumentPayload → Payload
