-- ===== src/Tests/Fixtures.antt =====
-- A small project: a human owner, two agents, one open task.
use agent_comms.Base.{[], ◌∷◌}
use agent_comms.Model.State.{State, Event, Agent, Task, empty_state}
use agent_comms.Model.Zero.{zero_agent, zero_task}
use agent_comms.Authority.Advance.{advance}
use agent_comms.Authority.Engine.{
  commit, mutate, mutate_project, command_public_key, validate_command, create_project, event_id,
}
use agent_comms.Model.EventTypes.{decodes, known_event_type}
use agent_comms.Protocol.Validate.{validate_transition}
use agent_comms.Protocol.Agents.{
  check_register, check_standing, check_activate, check_switch_role, check_elevate_key,
  check_rename, check_suspend, check_revoke, check_delete,
}
use agent_comms.Protocol.Settings.{check_settings}
use agent_comms.Base.Duration.{parse_duration}
use agent_comms.Protocol.Tasks.{
  check_task, check_overlaps, check_worktrees, default_lease, stale_grace, shared_write, conflicts,
}
use agent_comms.Protocol.Scopes.{scope_allows, overlap}
use agent_comms.Protocol.Standing.{normalize_role, validate_role_value, actor_elevated}
use agent_comms.Protocol.Approvals.{
  has_orchestrator_grant_approval, eligible_action_approval_id, has_bound_approval,
  requires_elevated_key, can_replace_orchestrator_grant_approval, approval_subject_digest,
}
use agent_comms.Protocol.Messages.{check_post, check_response, check_recipients}
use agent_comms.Protocol.Invocations.{check_invocation}
use agent_comms.Protocol.Invocations.Request.{
  check_invocation_requested, check_request_content, check_related_message, check_request_policy,
  check_preferred_runtime, check_invocation_approval, normalize_invocation_approval_subject,
  check_mode,
}
use agent_comms.Protocol.Invocations.Delivery.{
  check_invocation_delivery_attempted, check_invocation_notified, check_invocation_delivery_failed,
  check_delivery_runtime, resolve_endpoint, has_live_attempt,
}
use agent_comms.Protocol.Invocations.Work.{
  check_invocation_claimed, check_invocation_progress, check_invocation_waiting,
  check_invocation_completed, check_invocation_rejected,
}
use agent_comms.Protocol.Consumers.{
  consumer_allows_kind, runtime_invocation_load, next_delivery_attempt, automatic_delivery_attempts,
  effective_consumer_policy, contains_consumer_mode, runtime_kind,
}
use agent_comms.Protocol.Evidence.{validate_delivery_evidence, normalize_runtime_definition}
use agent_comms.Protocol.Runtimes.{
  check_runtime, check_active_invocations, refresh_runtime_presence,
}
use agent_comms.Protocol.Governance.{
  check_policy_update, check_trusted, normalize_modes, check_document, check_approval_request,
  check_approval_response, check_provider_register, check_provider_retire, check_env,
}
use agent_comms.Projection.Apply.{apply_event}
use agent_comms.Projection.Agents.{
  apply_agent_registered, apply_agent_activated, apply_agent_role_switched, apply_agent_key_rotated,
  apply_agent_elevated_key_registered, apply_agent_renamed, apply_agent_deleted,
  apply_agent_suspended, apply_agent_revoked,
}
use agent_comms.Projection.Tasks.{
  apply_task_created, apply_task_offered, apply_task_claimed, apply_task_renewed,
  apply_task_handoff, apply_task_status, apply_archive_run, spend_takeover,
}
use agent_comms.Projection.Messages.{apply_message_posted, apply_message_response}
use agent_comms.Projection.Invocations.{
  apply_invocation_requested, apply_invocation_delivery_attempted, apply_invocation_notified,
  apply_invocation_claimed, apply_invocation_progress, apply_invocation_waiting,
  apply_invocation_completed, apply_invocation_rejected, apply_invocation_delivery_failed,
}
use agent_comms.Projection.Runtimes.{
  apply_runtime_registered, apply_runtime_configured, apply_runtime_heartbeat, apply_runtime_moved,
  apply_runtime_deleted, apply_policy_updated,
}
use agent_comms.Projection.Governance.{
  apply_settings_updated, apply_approval_requested, apply_approval_response, apply_decision,
  apply_artifact_added, apply_document, apply_env_set, apply_env_delete, apply_provider_registered,
  apply_provider_retired,
}
use agent_comms.Projection.Consume.{
  consume_orchestrator_grant_approval, consume_approved_action, consume_named_approved_action,
}
use agent_comms.Protocol.Result.{Platform, Result, ok, err}

abbrev pub platform : Platform
platform = record {
  subject_json = λ actor typ id payload. actor;
  sha256_hex = λ text. text;
  base64_decode = λ text. text;
}

abbrev pub owner : Agent
owner = record zero_agent {
  id = "ana";
  status = "ACTIVE";
  role = "OWNER";
  principal_type = "HUMAN";
  public_key = "k1";
  scopes = "*" ∷ [];
}

abbrev pub worker : Agent
worker = record zero_agent {
  id = "claude-a";
  status = "ACTIVE";
  role = "tester";
  principal_type = "AGENT";
  public_key = "k2";
  scopes = "src" ∷ [];
}

abbrev pub open_task : Task
open_task = record zero_task {
  id = "t1";
  title = "fix";
  status = "OPEN";
  resources = "src/api" ∷ [];
  risk = "ROUTINE";
}

abbrev pub project : State
project = record empty_state {
  agents = ("ana", owner) ∷ ("claude-a", worker) ∷ [];
  tasks = ("t1", open_task) ∷ [];
}

-- The state after an event, or the state before it if it is refused.
abbrev pub after : State → Result State → State
after st (ok next) = next
after st (err message) = st

-- One event on the fixture's platform, with all that it calls open.
unfoldable pub run : State → Event → Result State
unfolding advance commit mutate mutate_project command_public_key validate_command create_project
    event_id decodes known_event_type validate_transition check_register check_standing
    check_activate check_switch_role check_elevate_key check_rename check_suspend check_revoke
    check_delete check_settings parse_duration check_task check_overlaps check_worktrees
    default_lease stale_grace shared_write conflicts scope_allows overlap normalize_role
    validate_role_value actor_elevated has_orchestrator_grant_approval eligible_action_approval_id
    has_bound_approval requires_elevated_key can_replace_orchestrator_grant_approval
    approval_subject_digest check_post check_response check_recipients check_invocation
    check_invocation_requested check_request_content check_related_message check_request_policy
    check_preferred_runtime check_invocation_approval normalize_invocation_approval_subject
    check_mode check_invocation_delivery_attempted check_invocation_notified
    check_invocation_delivery_failed check_delivery_runtime resolve_endpoint has_live_attempt
    check_invocation_claimed check_invocation_progress check_invocation_waiting
    check_invocation_completed check_invocation_rejected consumer_allows_kind
    runtime_invocation_load next_delivery_attempt automatic_delivery_attempts
    effective_consumer_policy contains_consumer_mode runtime_kind validate_delivery_evidence
    normalize_runtime_definition check_runtime check_active_invocations refresh_runtime_presence
    check_policy_update check_trusted normalize_modes check_document check_approval_request
    check_approval_response check_provider_register check_provider_retire check_env apply_event
    apply_agent_registered apply_agent_activated apply_agent_role_switched apply_agent_key_rotated
    apply_agent_elevated_key_registered apply_agent_renamed apply_agent_deleted
    apply_agent_suspended apply_agent_revoked apply_task_created apply_task_offered
    apply_task_claimed apply_task_renewed apply_task_handoff apply_task_status apply_archive_run
    spend_takeover apply_message_posted apply_message_response apply_invocation_requested
    apply_invocation_delivery_attempted apply_invocation_notified apply_invocation_claimed
    apply_invocation_progress apply_invocation_waiting apply_invocation_completed
    apply_invocation_rejected apply_invocation_delivery_failed apply_runtime_registered
    apply_runtime_configured apply_runtime_heartbeat apply_runtime_moved apply_runtime_deleted
    apply_policy_updated apply_settings_updated apply_approval_requested apply_approval_response
    apply_decision apply_artifact_added apply_document apply_env_set apply_env_delete
    apply_provider_registered apply_provider_retired consume_orchestrator_grant_approval
    consume_approved_action consume_named_approved_action
run st e = advance platform st e
