-- ===== src/Model/EventTypes.antt =====
-- internal/model/payloads.go: the keys of `payloadFactories`, and the payload that each type decodes to.
use agent_comms.Base.{String, Bool, List, [], ◌∷◌, ◌==◌, ◌||◌}
use agent_comms.Base.Text.{has}
use agent_comms.Model.Payloads.{
  Payload, agent_registered, agent_activated, agent_role_switched, task_status, agent_key_rotated,
  agent_renamed, runtime_status_changed, agent_deleted, agent_elevated_key_registered, task_created,
  task_offered, task_claimed, task_renewed, task_handoff, message_posted, message_response,
  invocation_requested, invocation_delivery_attempted, invocation_notified, invocation_claimed,
  invocation_progress, invocation_waiting, invocation_completed, invocation_rejected,
  invocation_delivery_failed, runtime_registered, runtime_configured, runtime_heartbeat,
  invocation_policy_updated, project_settings_updated, provider_registered, provider_retired,
  approval_requested, approval_response, decision_payload, artifact_added, archive_run,
  document_payload, env_set_payload, env_delete_payload,
}

unfoldable pub event_types : List String
event_types =
    "agent.register" ∷ "agent.activate" ∷ "agent.switch-role" ∷ "agent.suspend" ∷ "agent.rotate-key"
    ∷ "agent.rename" ∷ "agent.revoke" ∷ "agent.delete" ∷ "agent.elevate-key" ∷ "task.create"
    ∷ "task.offer" ∷ "task.claim" ∷ "task.start" ∷ "task.renew" ∷ "task.block" ∷ "task.review"
    ∷ "task.complete" ∷ "task.cancel" ∷ "task.handoff" ∷ "task.handoff.accept" ∷ "task.takeover"
    ∷ "message.post" ∷ "message.ack" ∷ "message.reject" ∷ "message.complete" ∷ "message.resolve"
    ∷ "invocation.request" ∷ "invocation.delivery-attempt" ∷ "invocation.notify"
    ∷ "invocation.claim" ∷ "invocation.start" ∷ "invocation.wait" ∷ "invocation.resume"
    ∷ "invocation.complete" ∷ "invocation.reject" ∷ "invocation.expire" ∷ "invocation.cancel"
    ∷ "invocation.delivery-failed" ∷ "runtime.register" ∷ "runtime.configure" ∷ "runtime.heartbeat"
    ∷ "runtime.offline" ∷ "runtime.drain" ∷ "runtime.resume" ∷ "runtime.revoke" ∷ "runtime.delete"
    ∷ "invocation.policy.update" ∷ "project.settings.update" ∷ "provider.register"
    ∷ "provider.retire" ∷ "approval.request" ∷ "approval.approve" ∷ "approval.reject"
    ∷ "decision.create" ∷ "decision.supersede" ∷ "artifact.add" ∷ "archive.run" ∷ "document.create"
    ∷ "document.update" ∷ "document.supersede" ∷ "env.set" ∷ "env.delete" ∷ []

unfoldable pub known_event_type : String → Bool
unfolding event_types has
known_event_type typ = has event_types typ

-- `DecodePayload` makes a value of the type that the factories give for the event type.
unfoldable pub decodes : String → Payload → Bool
decodes typ (agent_registered p) = typ == "agent.register"
decodes typ (agent_activated p) = typ == "agent.activate"
decodes typ (agent_role_switched p) = typ == "agent.switch-role"
decodes typ (task_status p) =
    typ == "agent.suspend"
    || typ == "task.start"
    || typ == "task.block"
    || typ == "task.review"
    || typ == "task.complete"
    || typ == "task.cancel"
    || typ == "task.handoff.accept"
    || typ == "task.takeover"
decodes typ (agent_key_rotated p) = typ == "agent.rotate-key"
decodes typ (agent_renamed p) = typ == "agent.rename"
decodes typ (runtime_status_changed p) =
    typ == "agent.revoke"
    || typ == "runtime.offline"
    || typ == "runtime.drain"
    || typ == "runtime.resume"
    || typ == "runtime.revoke"
    || typ == "runtime.delete"
decodes typ (agent_deleted p) = typ == "agent.delete"
decodes typ (agent_elevated_key_registered p) = typ == "agent.elevate-key"
decodes typ (task_created p) = typ == "task.create"
decodes typ (task_offered p) = typ == "task.offer"
decodes typ (task_claimed p) = typ == "task.claim"
decodes typ (task_renewed p) = typ == "task.renew"
decodes typ (task_handoff p) = typ == "task.handoff"
decodes typ (message_posted p) = typ == "message.post"
decodes typ (message_response p) =
    typ == "message.ack"
    || typ == "message.reject"
    || typ == "message.complete"
    || typ == "message.resolve"
decodes typ (invocation_requested p) = typ == "invocation.request"
decodes typ (invocation_delivery_attempted p) = typ == "invocation.delivery-attempt"
decodes typ (invocation_notified p) = typ == "invocation.notify"
decodes typ (invocation_claimed p) = typ == "invocation.claim"
decodes typ (invocation_progress p) = typ == "invocation.start" || typ == "invocation.resume"
decodes typ (invocation_waiting p) = typ == "invocation.wait"
decodes typ (invocation_completed p) = typ == "invocation.complete"
decodes typ (invocation_rejected p) =
    typ == "invocation.reject" || typ == "invocation.expire" || typ == "invocation.cancel"
decodes typ (invocation_delivery_failed p) = typ == "invocation.delivery-failed"
decodes typ (runtime_registered p) = typ == "runtime.register"
decodes typ (runtime_configured p) = typ == "runtime.configure"
decodes typ (runtime_heartbeat p) = typ == "runtime.heartbeat"
decodes typ (invocation_policy_updated p) = typ == "invocation.policy.update"
decodes typ (project_settings_updated p) = typ == "project.settings.update"
decodes typ (provider_registered p) = typ == "provider.register"
decodes typ (provider_retired p) = typ == "provider.retire"
decodes typ (approval_requested p) = typ == "approval.request"
decodes typ (approval_response p) = typ == "approval.approve" || typ == "approval.reject"
decodes typ (decision_payload p) = typ == "decision.create" || typ == "decision.supersede"
decodes typ (artifact_added p) = typ == "artifact.add"
decodes typ (archive_run p) = typ == "archive.run"
decodes typ (document_payload p) =
    typ == "document.create" || typ == "document.update" || typ == "document.supersede"
decodes typ (env_set_payload p) = typ == "env.set"
decodes typ (env_delete_payload p) = typ == "env.delete"
