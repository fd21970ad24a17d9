-- ===== src/Protocol/Agents/Checked.antt =====
-- internal/protocol/transitions.go: what an accepted activation was checked for.
use agent_comms.Base.{ℕ, sym, ◌≡◌, refl, String, Bool, true, false, not, ◌&&◌, ◌==◌, some, arith}
use agent_comms.Base.Map.{get, get_or}
use agent_comms.Model.Payloads.{Payload, AgentActivated, agent_activated}
use agent_comms.Model.State.{State, Agent}
use agent_comms.Model.Zero.{zero_agent}
use agent_comms.Protocol.Result.{
  ok, bind_ok, then_ok, reject_if, reject_if_ok, found_ok, ok-injective,
}
use agent_comms.Protocol.Standing.{role_owner, role_orchestrator, normalize_role}
use agent_comms.Protocol.Approvals.{has_orchestrator_grant_approval}
use agent_comms.Protocol.Cast.{to_agent_activated}
use agent_comms.Protocol.Agents.{check_activate}

cast_activated :
    (payload : Payload) {a : AgentActivated}
    → to_agent_activated payload ≡ some a
    → payload ≡ agent_activated a
cast_activated (agent_activated p) h = cc
cast_activated _ h = cc

-- A test that refuses `a` without `b`.
guard_passes : (a b : Bool) (e : String) → reject_if (a && not b) e ≡ ok tt → a ≡ true → b ≡ true
guard_passes true true e h s = refl
guard_passes _ _ e h s = ground arith

-- A grant of the orchestrator role has a human actor and an approval for the principal.
pub record RoleChecked (st : State) (actor id : String) (now : ℕ) (role : String) : Type 0 where
  pub not_owner : (role == role_owner) ≡ false
  pub by_human :
      (role == role_orchestrator) ≡ true
      → ((get_or zero_agent actor st.agents).principal_type == "HUMAN") ≡ true
  pub approved :
      (role == role_orchestrator) ≡ true → has_orchestrator_grant_approval st id now ≡ true

pub record ActivationChecked (st : State) (actor id : String) (now : ℕ) (payload q : Payload)
    : Type 0 where
  pub target : Agent
  pub there : get id st.agents ≡ some target
  pub not_revoked : (target.status == "REVOKED") ≡ false
  pub kept_owner : (target.role == role_owner) ≡ false
  pub activation : AgentActivated
  pub cast : payload ≡ agent_activated activation
  pub role_checked : RoleChecked st actor id now (normalize_role activation.role)
  pub normal : q ≡ agent_activated (record activation { role = normalize_role activation.role })

pub check_activate-ActivationChecked :
    (st : State) (actor id : String) (now : ℕ) (payload : Payload) {q : Payload}
    → check_activate st actor id payload now ≡ ok q
    → ActivationChecked st actor id now payload q
unfolding check_activate
check_activate-ActivationChecked st actor id now payload h =
    let (target, h0, h1) = bind_ok _ _ h in
    let (g1, h2) = then_ok _ _ h1 in
    let (g2, h3) = then_ok _ _ h2 in
    let (activation, g3, h4) = bind_ok _ _ h3 in
    let (g4, h5) = then_ok _ _ h4 in
    let (g5, h6) = then_ok _ _ h5 in
    let (g6, h7) = then_ok _ _ h6 in
    let (g7, h8) = then_ok _ _ h7 in
    record {
      target = target;
      there = found_ok _ _ h0;
      not_revoked = reject_if_ok _ _ g1;
      kept_owner = reject_if_ok _ _ g2;
      activation = activation;
      cast = cast_activated payload (found_ok _ _ g3);
      role_checked = record {
        not_owner = reject_if_ok _ _ g5;
        by_human = guard_passes _ _ _ g6;
        approved = guard_passes _ _ _ g7;
      };
      normal = sym (ok-injective h8);
    }
