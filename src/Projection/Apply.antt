-- ===== src/Projection/Apply.antt =====
-- internal/projection/apply.go, ApplyEvent: the type switch and the stamp. The payload is decoded.
use agent_comms.Base.{Bool, false, not, ◌==◌, if◌then◌else◌}
use agent_comms.Model.Payloads.{
  Payload, agent_registered, agent_activated, agent_role_switched, agent_key_rotated,
  agent_elevated_key_registered, agent_renamed, agent_deleted, task_created, task_offered,
  task_claimed, task_renewed, task_handoff, task_status, message_posted, message_response,
  invocation_requested, invocation_delivery_attempted, invocation_notified, invocation_claimed,
  invocation_progress, invocation_waiting, invocation_completed, invocation_rejected,
  invocation_delivery_failed, runtime_registered, runtime_configured, runtime_heartbeat,
  runtime_status_changed, invocation_policy_updated, project_settings_updated, approval_requested,
  approval_response, decision_payload, artifact_added, archive_run, document_payload,
  env_set_payload, env_delete_payload, provider_registered, provider_retired,
}
use agent_comms.Model.State.{State, Event}
use agent_comms.Model.EventTypes.{known_event_type}
use agent_comms.Protocol.Result.{Platform, Result, ok, ◌>>=◌}
use agent_comms.Projection.Stamp.{stamp_entity}
use agent_comms.Projection.Agents.{
  apply_agent_activated, apply_agent_deleted, apply_agent_elevated_key_registered,
  apply_agent_key_rotated, apply_agent_registered, apply_agent_renamed, apply_agent_revoked,
  apply_agent_role_switched, apply_agent_suspended,
}
use agent_comms.Projection.Governance.{
  apply_approval_requested, apply_approval_response, apply_artifact_added, apply_decision,
  apply_document, apply_env_delete, apply_env_set, apply_provider_registered,
  apply_provider_retired, apply_settings_updated,
}
use agent_comms.Projection.Tasks.{
  apply_archive_run, apply_task_claimed, apply_task_created, apply_task_handoff, apply_task_offered,
  apply_task_renewed, apply_task_status,
}
use agent_comms.Projection.Invocations.{
  apply_invocation_claimed, apply_invocation_completed, apply_invocation_delivery_attempted,
  apply_invocation_delivery_failed, apply_invocation_notified, apply_invocation_progress,
  apply_invocation_rejected, apply_invocation_requested, apply_invocation_waiting,
}
use agent_comms.Projection.Messages.{apply_message_posted, apply_message_response}
use agent_comms.Projection.Runtimes.{
  apply_policy_updated, apply_runtime_configured, apply_runtime_deleted, apply_runtime_heartbeat,
  apply_runtime_moved, apply_runtime_registered,
}

unfoldable pub apply_payload : Platform → State → Event → Payload → Result State
apply_payload pf s e (agent_registered p) = ok (apply_agent_registered pf s e p)
apply_payload pf s e (agent_activated p) = ok (apply_agent_activated s e p)
apply_payload pf s e (agent_role_switched p) = ok (apply_agent_role_switched s e p)
apply_payload pf s e (agent_key_rotated p) = ok (apply_agent_key_rotated pf s e p)
apply_payload pf s e (agent_elevated_key_registered p) =
    ok (apply_agent_elevated_key_registered pf s e p)
apply_payload pf s e (agent_renamed p) = ok (apply_agent_renamed s e p)
apply_payload pf s e (agent_deleted p) = ok (apply_agent_deleted s e)
apply_payload pf s e (task_created p) = ok (apply_task_created s e p)
apply_payload pf s e (task_offered p) = ok (apply_task_offered s e p)
apply_payload pf s e (task_claimed p) = ok (apply_task_claimed s e p)
apply_payload pf s e (task_renewed p) = ok (apply_task_renewed s e p)
apply_payload pf s e (task_handoff p) = ok (apply_task_handoff s e p)
apply_payload pf s e (task_status p) =
    if e.typ == "agent.suspend" then ok (apply_agent_suspended s e) else apply_task_status s e p
apply_payload pf s e (message_posted p) = ok (apply_message_posted s e p)
apply_payload pf s e (message_response p) = ok (apply_message_response s e p)
apply_payload pf s e (invocation_requested p) = ok (apply_invocation_requested s e p)
apply_payload pf s e (invocation_delivery_attempted p) =
    ok (apply_invocation_delivery_attempted s e p)
apply_payload pf s e (invocation_notified p) = ok (apply_invocation_notified s e p)
apply_payload pf s e (invocation_claimed p) = ok (apply_invocation_claimed s e p)
apply_payload pf s e (invocation_progress p) = ok (apply_invocation_progress s e p)
apply_payload pf s e (invocation_waiting p) = ok (apply_invocation_waiting s e p)
apply_payload pf s e (invocation_completed p) = ok (apply_invocation_completed s e p)
apply_payload pf s e (invocation_rejected p) = ok (apply_invocation_rejected s e p)
apply_payload pf s e (invocation_delivery_failed p) = ok (apply_invocation_delivery_failed s e p)
apply_payload pf s e (runtime_registered p) = ok (apply_runtime_registered s e p)
apply_payload pf s e (runtime_configured p) = ok (apply_runtime_configured s e p)
apply_payload pf s e (runtime_heartbeat p) = ok (apply_runtime_heartbeat s e p)
apply_payload pf s e (runtime_status_changed p) =
    if e.typ == "agent.revoke"
    then ok (apply_agent_revoked s e)
    else if e.typ == "runtime.delete"
    then ok (apply_runtime_deleted s e)
    else ok (apply_runtime_moved s e p)
apply_payload pf s e (invocation_policy_updated p) = ok (apply_policy_updated s e p)
apply_payload pf s e (project_settings_updated p) = ok (apply_settings_updated s e p)
apply_payload pf s e (approval_requested p) = ok (apply_approval_requested s e p)
apply_payload pf s e (approval_response p) = ok (apply_approval_response s e)
apply_payload pf s e (decision_payload p) = ok (apply_decision s e p)
apply_payload pf s e (artifact_added p) = ok (apply_artifact_added s e p)
apply_payload pf s e (archive_run p) = ok (apply_archive_run s e p)
apply_payload pf s e (document_payload p) = ok (apply_document s e p)
apply_payload pf s e (env_set_payload p) = ok (apply_env_set s e p)
apply_payload pf s e (env_delete_payload p) = ok (apply_env_delete s p)
apply_payload pf s e (provider_registered p) = ok (apply_provider_registered s e p)
apply_payload pf s e (provider_retired p) = ok (apply_provider_retired s e p)

-- The case that returns before the stamp.
abbrev is_runtime_deletion : Event → Payload → Bool
is_runtime_deletion e (runtime_status_changed p) = e.typ == "runtime.delete"
is_runtime_deletion e payload = false

unfoldable pub apply_event : Platform → State → Event → Result State
unfolding apply_payload known_event_type stamp_entity
apply_event pf s e =
    if not (known_event_type e.typ)
    then ok s
    else (apply_payload pf s e e.payload >>= λ next.
        ok (if is_runtime_deletion e e.payload then next else stamp_entity next e))
