-- ===== src/Tests/AgentTests.antt =====
-- Agents.
use agent_comms.Base.{ℕ, ◌≡◌, refl, false, true, [], ◌∷◌, ◌==◌}
use agent_comms.Base.Map.{get_or}
use agent_comms.Model.Payloads.{AgentActivated, RuntimeStatusChanged}
use agent_comms.Model.State.{State, Approval, AgentRuntime}
use agent_comms.Model.Zero.{zero_agent, zero_approval, zero_runtime}
use agent_comms.Protocol.Result.{ok}
use agent_comms.Protocol.Approvals.{has_orchestrator_grant_approval}
use agent_comms.Protocol.Standing.{normalize_role, role_orchestrator}
use agent_comms.Authority.Advance.{advance}
use agent_comms.Agents.Revoke.{revoke_event, revoke_reaches_runtimes, Revoked}
use agent_comms.Agents.Grant.{activation_event, orchestrator_grant_single_use}
use agent_comms.Tests.Fixtures.{platform, project, after, run}

abbrev grant : Approval
grant = record zero_approval {
  id = "grant-orchestrator-claude-a";
  tier = "HUMAN";
  action = "agent.activate:claude-a";
  status = "APPROVED";
}

abbrev granting : State
granting = record project { approvals = ("grant-orchestrator-claude-a", grant) ∷ [] }

abbrev activation : AgentActivated
activation = record { role = "orchestrator"; capabilities = []; scopes = "src" ∷ [] }

abbrev granted : State
unfolding run
granted =
    after granting
      (run granting (activation_event platform granting "ana" "claude-a" "evt-3" 1000 3 activation))

grant_accepted :
    advance platform granting
      (activation_event platform granting "ana" "claude-a" "evt-3" 1000 3 activation)
    ≡ ok granted
unfolding run
grant_accepted = refl

is_orchestrator : (normalize_role "orchestrator" == role_orchestrator) ≡ true
unfolding run
is_orchestrator = refl

orchestrator_grant_single_use_example :
    ((get_or zero_agent "ana" granting.agents).principal_type ≡ "HUMAN")
    × (has_orchestrator_grant_approval granting "claude-a" 1000 ≡ true)
    × ((later : ℕ) → has_orchestrator_grant_approval granted "claude-a" later ≡ false)
orchestrator_grant_single_use_example =
    orchestrator_grant_single_use platform granting "ana" "claude-a" "evt-3" 1000 3 activation
      grant_accepted is_orchestrator

abbrev host : AgentRuntime
host = record zero_runtime {
  id = "r1";
  agent_id = "claude-a";
  status = "ONLINE";
  health = "HEALTHY";
}

abbrev hosting : State
hosting = record project { runtimes = ("r1", host) ∷ [] }

abbrev dismissal : RuntimeStatusChanged
dismissal = record { reason = "left"; endpoint_id = "" }

abbrev dismissed : State
unfolding run
dismissed =
    after hosting
      (run hosting (revoke_event platform hosting "ana" "claude-a" "evt-4" 2000 4 dismissal))

dismissal_accepted :
    advance platform hosting
      (revoke_event platform hosting "ana" "claude-a" "evt-4" 2000 4 dismissal)
    ≡ ok dismissed
unfolding run
dismissal_accepted = refl

revoke_reaches_runtimes_example : Revoked hosting dismissed "claude-a"
revoke_reaches_runtimes_example =
    revoke_reaches_runtimes platform hosting "ana" "claude-a" "evt-4" 2000 4 dismissal
      dismissal_accepted
