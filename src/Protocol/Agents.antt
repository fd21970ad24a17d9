-- ===== src/Protocol/Agents.antt =====
-- internal/protocol/transitions.go, ValidateTransition: the agent transitions. Each function is one
-- `if typ == …` block for a payload that comes with that type.
pub mod Checked
use agent_comms.Base.{
  ℕ, String, Bool, true, false, not, ◌&&◌, ◌||◌, ◌==◌, Option, none, some, List, if◌then◌else◌,
}
use agent_comms.Base.Map.{get, get_or}
use agent_comms.Base.Text.{trim_space, cut_hyphen}
use agent_comms.Model.Payloads.{Payload, agent_activated, agent_role_switched}
use agent_comms.Model.State.{State, Agent, Provider}
use agent_comms.Model.Zero.{zero_agent, zero_approval}
use agent_comms.Model.Providers.{
  registrable_providers, provider_of, provider_set_has, validate_provider_name,
}
use agent_comms.Protocol.Result.{Result, ok, err, ◌>>=◌, ◌>>◌, reject_if, found}
use agent_comms.Protocol.Standing.{
  role_owner, role_orchestrator, active, elevated, governs, normalize_role, validate_role_value,
}
use agent_comms.Protocol.Approvals.{has_orchestrator_grant_approval}
use agent_comms.Protocol.Cast.{
  to_agent_registered, to_agent_activated, to_agent_role_switched, to_agent_elevated_key_registered,
  to_agent_renamed, to_agent_deleted,
}

abbrev is_some {ℓ} : {A : Type ℓ} → Option A → Bool
is_some none = false
is_some (some _) = true

abbrev provider_is_retired : Option Provider → Bool
provider_is_retired none = false
provider_is_retired (some p) = p.status == "RETIRED"

-- The text for an ID whose provider the project lacks; a bare name keeps the suggestion.
unfoldable pub unknown_provider : State → List String → Option (String × String) → Result (Unit {0})
unfolding provider_set_has validate_provider_name get
unknown_provider st providers none = err "agent ID must name its provider"
unknown_provider st providers (some (name, _)) =
    if not (provider_set_has providers name) && not (is_some (validate_provider_name name))
    then (if provider_is_retired (get name st.providers)
        then err "provider is not registered for this project: provider is retired"
        else err "provider is not registered for this project")
    else err "agent ID must name its provider"

unfoldable pub check_agent_id : State → String → Result (Unit {0})
unfolding registrable_providers provider_of unknown_provider cut_hyphen
check_agent_id st id =
    let providers = registrable_providers st in
    if is_some (provider_of providers id)
    then ok tt
    else unknown_provider st providers (cut_hyphen id)

unfoldable pub check_register : State → String → Payload → Result (Unit {0})
unfolding get check_agent_id
check_register st id payload = do
  registered ← found (to_agent_registered payload) "invalid agent registration payload"
  reject_if
      (id == ""
        || registered.public_key == ""
        || (not (registered.principal_type == "HUMAN")
            && not (registered.principal_type == "AGENT")))
      "agent ID, public key, and valid principal type are required"
  reject_if (is_some (get id st.agents)) "principal already exists"
  if registered.principal_type == "AGENT" then check_agent_id st id else ok tt

-- The checks that every other type shares: the actor is active, a governing type wants a governing
-- role, and a HUMAN approval wants a human.
unfoldable pub check_standing : State → String → String → String → Result (Unit {0})
unfolding active elevated governs get_or
check_standing st actor typ id = do
  a ← active st actor
  let self_key_rotation = typ == "agent.rotate-key" && id == actor
  let self_revoke = typ == "agent.revoke" && id == actor
  reject_if (elevated typ && not self_key_rotation && not self_revoke && not (governs a.role))
      "owner or orchestrator role required"
  reject_if
      (typ == "approval.approve"
        && (get_or zero_approval id st.approvals).tier == "HUMAN"
        && not (a.principal_type == "HUMAN"))
      "human principal required for this approval"

unfoldable pub check_activate : State → String → String → Payload → ℕ → Result Payload
unfolding get get_or normalize_role validate_role_value
check_activate st actor id payload now = do
  target ← found (get id st.agents) "pending principal not found"
  reject_if (target.status == "REVOKED") "cannot activate a revoked principal"
  reject_if (target.role == role_owner) "the owner principal's role can never be changed"
  activation ← found (to_agent_activated payload) "valid activation role is required"
  let role = normalize_role activation.role
  validate_role_value role
  reject_if (role == role_owner) "the OWNER role can only be assigned once, at project creation"
  reject_if
      (role == role_orchestrator
        && not ((get_or zero_agent actor st.agents).principal_type == "HUMAN"))
      "human principal required to grant the orchestrator role"
  reject_if (role == role_orchestrator && not (has_orchestrator_grant_approval st id now))
      "granting the orchestrator role requires an approved, unexpired HUMAN-tier approval first"
  ok (agent_activated (record activation { role = role }))

unfoldable pub check_switch_role : State → String → String → Payload → ℕ → Result Payload
unfolding get_or normalize_role validate_role_value
check_switch_role st actor id payload now = do
  let self = get_or zero_agent actor st.agents
  reject_if (not (id == actor)) "a role can only be switched for your own actor"
  reject_if (self.role == role_owner) "the owner principal cannot switch its own role"
  switched ← found (to_agent_role_switched payload) "valid role is required"
  let role = normalize_role switched.role
  validate_role_value role
  reject_if (role == role_owner) "the OWNER role can only be assigned once, at project creation"
  reject_if (role == role_orchestrator && not (self.principal_type == "HUMAN"))
      "human principal required to switch to the orchestrator role"
  reject_if (role == role_orchestrator && not (has_orchestrator_grant_approval st actor now))
      "switching to the orchestrator role requires an approved, unexpired HUMAN-tier approval first"
  ok (agent_role_switched (record switched { role = role }))

unfoldable pub check_elevate_key : State → String → String → Payload → Result (Unit {0})
unfolding get_or
check_elevate_key st actor id payload = do
  reject_if (not (id == actor)) "an elevated key can only be registered for your own actor"
  reject_if (not ((get_or zero_agent actor st.agents).principal_type == "HUMAN"))
      "only a human principal may register an elevated key"
  registered ←
      found (to_agent_elevated_key_registered payload)
        "a public key is required to register an elevated key"
  reject_if (registered.public_key == "") "a public key is required to register an elevated key"

unfoldable pub check_rename : State → String → Payload → Result (Unit {0})
unfolding get trim_space
check_rename st id payload = do
  target ← found (get id st.agents) "principal not found"
  reject_if (target.status == "REVOKED") "cannot rename a revoked principal"
  renamed ← found (to_agent_renamed payload) "display name is required"
  reject_if (trim_space renamed.display_name == "") "display name is required"

-- An orchestrator or a human, acted on by somebody else who is no human.
unfoldable pub needs_human : State → String → String → Agent → Bool
unfolding get_or
needs_human st actor id target =
    not (id == actor)
    && (target.role == role_orchestrator || target.principal_type == "HUMAN")
    && not ((get_or zero_agent actor st.agents).principal_type == "HUMAN")

unfoldable pub check_suspend : State → String → String → Result (Unit {0})
unfolding get needs_human
check_suspend st actor id = do
  target ← found (get id st.agents) "principal not found"
  reject_if (target.status == "REVOKED") "cannot suspend a revoked principal"
  reject_if (target.role == role_owner) "owner principal cannot be suspended"
  reject_if (needs_human st actor id target)
      "human principal required to suspend an orchestrator or human principal"

unfoldable pub check_revoke : State → String → String → Result (Unit {0})
unfolding get needs_human
check_revoke st actor id = do
  target ← found (get id st.agents) "principal not found"
  reject_if (target.status == "REVOKED") "principal is already revoked"
  reject_if (target.role == role_owner) "owner principal cannot be revoked"
  reject_if (needs_human st actor id target)
      "human principal required to revoke an orchestrator or human principal"

unfoldable pub check_delete : State → String → String → Payload → Result (Unit {0})
unfolding get get_or trim_space
check_delete st actor id payload = do
  target ← found (get id st.agents) "principal not found"
  reject_if (not (target.status == "REVOKED")) "principal must be revoked before deletion"
  reject_if (not ((get_or zero_agent actor st.agents).principal_type == "HUMAN"))
      "human principal required to delete a principal"
  deleted ← found (to_agent_deleted payload) "deletion reason is required"
  reject_if (trim_space deleted.reason == "") "deletion reason is required"
