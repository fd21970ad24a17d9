-- ===== src/Protocol/Validate.antt =====
-- internal/protocol/transitions.go, ValidateTransition: the blocks in their order. Each block tests the
-- type itself, so that several may run for one event.
use text.Mathlib.Text.{starts_with}
pub mod Inversion
pub mod Acceptance
use agent_comms.Base.{ℕ, String, Bool, true, false, not, ◌&&◌, ◌||◌, ◌==◌}
use agent_comms.Model.Payloads.{Payload}
use agent_comms.Model.State.{State}
use agent_comms.Protocol.Result.{Platform, Result, ok, ◌>>=◌, ◌>>◌, reject_if}
use agent_comms.Protocol.Agents.{
  check_register, check_standing, check_activate, check_switch_role, check_elevate_key,
  check_rename, check_suspend, check_revoke, check_delete,
}
use agent_comms.Protocol.Settings.{check_settings}
use agent_comms.Protocol.Tasks.{check_task}
use agent_comms.Protocol.Messages.{check_post, check_response}
use agent_comms.Protocol.Invocations.{check_invocation}
use agent_comms.Protocol.Runtimes.{check_runtime}
use agent_comms.Protocol.Governance.{
  check_policy_update, check_document, check_approval_request, check_approval_response,
  check_provider_register, check_provider_retire, check_env,
}

abbrev when : Bool → Result (Unit {0}) → Result (Unit {0})
when true r = r
when false r = ok tt

abbrev replace_when : Bool → Payload → Result Payload → Result Payload
replace_when true payload r = r
replace_when false payload r = ok payload

-- The agent blocks.
unfoldable pub validate_agent : State → String → String → String → Payload → ℕ → Result Payload
validate_agent st actor typ id payload now = do
  when (typ == "agent.register") (check_register st id payload)
  when (not (typ == "agent.register")) (check_standing st actor typ id)
  activated ←
      replace_when (typ == "agent.activate") payload (check_activate st actor id payload now)
  switched ←
      replace_when (typ == "agent.switch-role") activated
        (check_switch_role st actor id activated now)
  when (typ == "agent.elevate-key") (check_elevate_key st actor id switched)
  reject_if (typ == "agent.rotate-key" && not (id == actor))
      "a key can only be rotated for your own actor"
  when (typ == "agent.rename") (check_rename st id switched)
  when (typ == "agent.suspend") (check_suspend st actor id)
  when (typ == "agent.revoke") (check_revoke st actor id)
  when (typ == "agent.delete") (check_delete st actor id switched)
  ok switched

-- The blocks of settings, tasks, messages, invocations and runtimes.
unfoldable pub validate_work :
    Platform → State → String → String → String → Payload → ℕ → Result Payload
validate_work pf st actor typ id payload now = do
  when (typ == "project.settings.update") (check_settings st actor payload)
  after_task ←
      replace_when (starts_with typ "task.") payload (check_task st actor typ id payload now)
  when (typ == "message.post") (check_post pf st actor id after_task now)
  after_message ←
      replace_when
        (typ == "message.ack"
          || typ == "message.reject"
          || typ == "message.complete"
          || typ == "message.resolve")
        after_task (check_response st actor typ id after_task)
  after_invocation ←
      replace_when (starts_with typ "invocation." && not (typ == "invocation.policy.update"))
        after_message (check_invocation pf st actor typ id after_message now)
  replace_when (starts_with typ "runtime.") after_invocation
      (check_runtime st actor typ id after_invocation now)

-- The blocks of policies, documents, approvals, providers and the environment.
unfoldable pub validate_governance :
    Platform → State → String → String → String → Payload → ℕ → Result Payload
validate_governance pf st actor typ id payload now = do
  after_policy ←
      replace_when (typ == "invocation.policy.update") payload
        (check_policy_update st actor id payload)
  when (starts_with typ "document.") (check_document st typ id after_policy)
  when (typ == "approval.request") (check_approval_request pf st id after_policy now)
  when (typ == "approval.approve" || typ == "approval.reject") (check_approval_response st id)
  when (typ == "provider.register") (check_provider_register st id after_policy)
  when (typ == "provider.retire") (check_provider_retire st id after_policy)
  when (starts_with typ "env.") (check_env typ after_policy)
  ok after_policy

unfoldable pub validate_transition :
    Platform → State → String → String → String → Payload → ℕ → Result Payload
unfolding validate_agent validate_work validate_governance
validate_transition pf st actor typ id payload now = do
  reject_if (actor == "") "actor is required"
  agent_payload ← validate_agent st actor typ id payload now
  work_payload ← validate_work pf st actor typ id agent_payload now
  validate_governance pf st actor typ id work_payload now
