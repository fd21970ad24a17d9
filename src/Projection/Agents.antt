-- ===== src/Projection/Agents.antt =====
-- internal/projection/apply.go: the cases of agents.
use Prim.Native.String.{slice}
use agent_comms.Base.{String, not, ◌&&◌, ◌==◌, [], ◌∷◌, if◌then◌else◌}
use agent_comms.Base.Map.{Map, get_or, put, delete}
use agent_comms.Model.Payloads.{
  AgentRegistered, AgentActivated, AgentRoleSwitched, AgentKeyRotated, AgentElevatedKeyRegistered,
  AgentRenamed,
}
use agent_comms.Model.State.{State, Agent, AgentRuntime, Event}
use agent_comms.Model.Zero.{zero_agent}
use agent_comms.Protocol.Result.{Platform}
use agent_comms.Protocol.Standing.{role_orchestrator}
use agent_comms.Projection.Consume.{consume_orchestrator_grant_approval}

-- internal/identity/identity.go: the first eight bytes of the digest of the decoded key.
unfoldable pub fingerprint : Platform → String → String
fingerprint pf public_key = slice (pf.sha256_hex (pf.base64_decode public_key)) 0 16

-- `a := s.Agents[id]; …; s.Agents[id] = a`
unfoldable pub set_agent : State → String → (Agent → Agent) → State
unfolding get_or put
set_agent s id f = record s { agents = put id (f (get_or zero_agent id s.agents)) s.agents }

unfoldable pub apply_agent_registered : Platform → State → Event → AgentRegistered → State
unfolding put fingerprint
apply_agent_registered pf s e p = record s {
  agents =
      put e.entity_id
        (record zero_agent {
          id = e.entity_id;
          display_name = p.display_name;
          status = "PENDING";
          principal_type = p.principal_type;
          public_key = p.public_key;
          key_fingerprint = fingerprint pf p.public_key;
        })
        s.agents;
}

unfoldable pub apply_agent_activated : State → Event → AgentActivated → State
unfolding set_agent
apply_agent_activated s e p =
    let activated = set_agent s e.entity_id (λ a. record a {
      status = "ACTIVE";
      role = p.role;
      capabilities = p.capabilities;
      scopes = p.scopes;
    }) in
    if p.role == role_orchestrator
    then consume_orchestrator_grant_approval activated e.entity_id e
    else activated

unfoldable pub apply_agent_role_switched : State → Event → AgentRoleSwitched → State
unfolding set_agent
apply_agent_role_switched s e p =
    let switched = set_agent s e.entity_id (λ a. record a { role = p.role }) in
    if p.role == role_orchestrator
    then consume_orchestrator_grant_approval switched e.entity_id e
    else switched

unfoldable pub apply_agent_key_rotated : Platform → State → Event → AgentKeyRotated → State
unfolding set_agent fingerprint
apply_agent_key_rotated pf s e p =
    set_agent s e.entity_id
      (λ a. record a { public_key = p.public_key; key_fingerprint = fingerprint pf p.public_key })

unfoldable pub apply_agent_elevated_key_registered :
    Platform → State → Event → AgentElevatedKeyRegistered → State
unfolding set_agent fingerprint
apply_agent_elevated_key_registered pf s e p = set_agent s e.entity_id (λ a. record a {
  elevated_public_key = p.public_key;
  elevated_key_fingerprint = fingerprint pf p.public_key;
})

unfoldable pub apply_agent_renamed : State → Event → AgentRenamed → State
unfolding set_agent
apply_agent_renamed s e p =
    set_agent s e.entity_id (λ a. record a { display_name = p.display_name })

unfoldable pub apply_agent_deleted : State → Event → State
unfolding delete
apply_agent_deleted s e = record s { agents = delete e.entity_id s.agents }

unfoldable pub apply_agent_suspended : State → Event → State
unfolding set_agent
apply_agent_suspended s e = set_agent s e.entity_id (λ a. record a { status = "SUSPENDED" })

-- A runtime of a revoked agent is revoked with it.
unfoldable pub revoke_with : Event → AgentRuntime → AgentRuntime
revoke_with e r =
    if r.agent_id == e.entity_id && not (r.status == "REVOKED")
    then record r {
      status = "REVOKED";
      reason = "agent revoked";
      last_changed_by = e.actor;
      clock = record r.clock { updated_at = e.time; updated_sequence = e.sequence };
    }
    else r

unfoldable pub revoke_all : Event → Map AgentRuntime → Map AgentRuntime
unfolding revoke_with
revoke_all e [] = []
revoke_all e ((id, r) ∷ rest) = (id, revoke_with e r) ∷ revoke_all e rest

unfoldable pub apply_agent_revoked : State → Event → State
unfolding set_agent revoke_all
apply_agent_revoked s e =
    let revoked = set_agent s e.entity_id (λ a. record a { status = "REVOKED" }) in
    record revoked { runtimes = revoke_all e s.runtimes }
