-- ===== src/Protocol/Standing.antt =====
-- internal/protocol/transitions.go: who may act, and roles.
use Prim.Native.String.{len}
use agent_comms.Base.{ℕ, String, Bool, false, not, ◌&&◌, ◌||◌, ◌==◌, none, some, ltb, if◌then◌else◌}
use agent_comms.Base.Map.{get}
use agent_comms.Base.Text.{trim_space, to_upper}
use agent_comms.Model.State.{State, Agent}
use agent_comms.Protocol.Result.{Result, ok, ◌>>=◌, ◌>>◌, reject_if, found}

abbrev pub role_owner : String
role_owner = "OWNER"

abbrev pub role_orchestrator : String
role_orchestrator = "ORCHESTRATOR"

unfoldable pub active : State → String → Result Agent
unfolding get
active st actor = do
  a ← found (get actor st.agents) "active principal required"
  reject_if (not (a.status == "ACTIVE")) "active principal required"
  ok a

unfoldable pub elevated : String → Bool
elevated typ =
    typ == "approval.approve"
    || typ == "approval.reject"
    || typ == "agent.activate"
    || typ == "agent.suspend"
    || typ == "agent.rotate-key"
    || typ == "agent.rename"
    || typ == "agent.revoke"
    || typ == "agent.delete"
    || typ == "project.settings.update"
    || typ == "env.set"
    || typ == "env.delete"
    || typ == "provider.register"
    || typ == "provider.retire"

-- `role == OWNER || role == ORCHESTRATOR`
unfoldable pub governs : String → Bool
governs role = role == role_owner || role == role_orchestrator

unfoldable pub actor_elevated : State → String → Bool
unfolding governs get
actor_elevated st actor = elim (get actor st.agents) [
  | none ↦ false
  | some a ↦ a.status == "ACTIVE" && governs a.role
]

abbrev pub max_role_length : ℕ
max_role_length = 64

unfoldable pub normalize_role : String → String
normalize_role r =
    let trimmed = trim_space r in
    let upper = to_upper trimmed in
    if upper == role_owner
    then role_owner
    else if upper == role_orchestrator
    then role_orchestrator
    else trimmed

unfoldable pub validate_role_value : String → Result (Unit {0})
validate_role_value r = do
  reject_if (r == "") "a role is required"
  reject_if (ltb max_role_length (len r)) "role exceeds 64 characters"
