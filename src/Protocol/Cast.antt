-- ===== src/Protocol/Cast.antt =====
-- The type assertions `p, ok := payload.(model.T)` of the validator.
use agent_comms.Base.{Option, none, some}
use agent_comms.Model.Payloads.{
  Payload, AgentRegistered, AgentActivated, AgentRoleSwitched, AgentElevatedKeyRegistered,
  AgentRenamed, AgentDeleted, MessagePosted, MessageResponse, InvocationPolicyUpdated,
  ProjectSettingsUpdated, ProviderRegistered, ProviderRetired, ApprovalRequested, EnvSetPayload,
  EnvDeletePayload, DocumentPayload, agent_registered, agent_activated, agent_role_switched,
  agent_elevated_key_registered, agent_renamed, agent_deleted, message_posted, message_response,
  invocation_policy_updated, project_settings_updated, provider_registered, provider_retired,
  approval_requested, env_set_payload, env_delete_payload, document_payload,
}

abbrev pub to_agent_registered : Payload → Option AgentRegistered
to_agent_registered (agent_registered p) = some p
to_agent_registered _ = none

abbrev pub to_agent_activated : Payload → Option AgentActivated
to_agent_activated (agent_activated p) = some p
to_agent_activated _ = none

abbrev pub to_agent_role_switched : Payload → Option AgentRoleSwitched
to_agent_role_switched (agent_role_switched p) = some p
to_agent_role_switched _ = none

abbrev pub to_agent_elevated_key_registered : Payload → Option AgentElevatedKeyRegistered
to_agent_elevated_key_registered (agent_elevated_key_registered p) = some p
to_agent_elevated_key_registered _ = none

abbrev pub to_agent_renamed : Payload → Option AgentRenamed
to_agent_renamed (agent_renamed p) = some p
to_agent_renamed _ = none

abbrev pub to_agent_deleted : Payload → Option AgentDeleted
to_agent_deleted (agent_deleted p) = some p
to_agent_deleted _ = none

abbrev pub to_message_posted : Payload → Option MessagePosted
to_message_posted (message_posted p) = some p
to_message_posted _ = none

abbrev pub to_message_response : Payload → Option MessageResponse
to_message_response (message_response p) = some p
to_message_response _ = none

abbrev pub to_invocation_policy_updated : Payload → Option InvocationPolicyUpdated
to_invocation_policy_updated (invocation_policy_updated p) = some p
to_invocation_policy_updated _ = none

abbrev pub to_project_settings_updated : Payload → Option ProjectSettingsUpdated
to_project_settings_updated (project_settings_updated p) = some p
to_project_settings_updated _ = none

abbrev pub to_provider_registered : Payload → Option ProviderRegistered
to_provider_registered (provider_registered p) = some p
to_provider_registered _ = none

abbrev pub to_provider_retired : Payload → Option ProviderRetired
to_provider_retired (provider_retired p) = some p
to_provider_retired _ = none

abbrev pub to_approval_requested : Payload → Option ApprovalRequested
to_approval_requested (approval_requested p) = some p
to_approval_requested _ = none

abbrev pub to_env_set_payload : Payload → Option EnvSetPayload
to_env_set_payload (env_set_payload p) = some p
to_env_set_payload _ = none

abbrev pub to_env_delete_payload : Payload → Option EnvDeletePayload
to_env_delete_payload (env_delete_payload p) = some p
to_env_delete_payload _ = none

abbrev pub to_document_payload : Payload → Option DocumentPayload
to_document_payload (document_payload p) = some p
to_document_payload _ = none
