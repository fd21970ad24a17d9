-- ===== src/Agents/Grant.antt =====
-- internal/protocol/transitions.go and internal/projection/apply.go: a grant of the orchestrator role.
use agent_comms.Base.{ℕ, ◌≡◌, inl, inr, String, true, false, ◌==◌, arith, eq_iff, Option-cases}
use agent_comms.Base.Map.{get, get_or, get-put_self}
use agent_comms.Model.Payloads.{AgentActivated, agent_activated}
use agent_comms.Model.State.{State, Event}
use agent_comms.Model.Zero.{zero_agent}
use agent_comms.Protocol.Result.{Platform, ok, ok-injective}
use agent_comms.Protocol.Standing.{role_orchestrator, normalize_role}
use agent_comms.Protocol.Approvals.{
  has_orchestrator_grant_approval, orchestrator_grant_approval_id, grants_orchestrator,
}
use agent_comms.Protocol.Agents.Checked.{RoleChecked, check_activate-ActivationChecked}
use agent_comms.Protocol.Validate.Inversion.{validate_activate}
use agent_comms.Projection.Consume.{consume_orchestrator_grant_approval, consumed}
use agent_comms.Projection.Agents.{apply_agent_activated, set_agent}
use agent_comms.Projection.Stamp.{stamp_entity}
use agent_comms.Projection.Apply.{apply_event}
use agent_comms.Authority.Advance.{advance, advance_ok}

-- A consumed approval grants nothing, whatever the time.
consume-spent :
    (st : State) (id : String) (e : Event) (later : ℕ)
    → has_orchestrator_grant_approval (consume_orchestrator_grant_approval st id e) id later ≡ false
unfolding consume_orchestrator_grant_approval has_orchestrator_grant_approval grants_orchestrator
consume-spent st id e later =
    elim (Option-cases (get (orchestrator_grant_approval_id id) st.approvals)) [
      | inl none_there ↦
          rw (consume_orchestrator_grant_approval, has_orchestrator_grant_approval, none_there) rw
            (none_there) ground arith
      | inr (a, there) ↦
          rw (consume_orchestrator_grant_approval, has_orchestrator_grant_approval, there) rw
            (get-put_self (orchestrator_grant_approval_id id) (consumed e a) st.approvals) ground
            arith
    ]

agent_activated-injective : {a b : AgentActivated} → agent_activated a ≡ agent_activated b → a ≡ b
agent_activated-injective h = cc

module _ (pf : Platform) (st : State) (actor id event_id : String) (now sequence : ℕ)
    (p : AgentActivated) where
  abbrev pub activation_event : Event
  activation_event = record {
    id = event_id;
    sequence = sequence;
    time = now;
    actor = actor;
    typ = "agent.activate";
    entity_id = id;
    payload = agent_activated p;
  }

  activation_spends :
      {st' : State}
      → (normalize_role p.role == role_orchestrator) ≡ true
      → apply_event pf st (record activation_event {
        payload = agent_activated (record p { role = normalize_role p.role });
      })
        ≡ ok st'
      → (later : ℕ) → has_orchestrator_grant_approval st' id later ≡ false
  unfolding apply_event apply_agent_activated stamp_entity set_agent has_orchestrator_grant_approval
      normalize_role
  activation_spends o h later = rw (← ok-injective h, o) (consume-spent _ id _ later)

  -- An accepted activation to ORCHESTRATOR was made by a human under an approved, unexpired
  -- HUMAN-tier grant for the principal; after it that grant serves no second activation, at no time.
  pub orchestrator_grant_single_use :
      {st' : State}
      → advance pf st activation_event ≡ ok st'
      → (normalize_role p.role == role_orchestrator) ≡ true
      → ((get_or zero_agent actor st.agents).principal_type ≡ "HUMAN")
        × (has_orchestrator_grant_approval st id now ≡ true)
        × ((later : ℕ) → has_orchestrator_grant_approval st' id later ≡ false)
  orchestrator_grant_single_use h o =
      let (q, _, valid, applied) = advance_ok pf st activation_event h in
      let checked =
        check_activate-ActivationChecked st actor id now (agent_activated p)
          (validate_activate pf st actor id (agent_activated p) now valid).1 in
      let same = agent_activated-injective checked.cast in
      let role : RoleChecked st actor id now (normalize_role p.role) =
        rw (same) checked.role_checked in
      (
        (eq_iff (get_or zero_agent actor st.agents).principal_type "HUMAN").0 (role.by_human o),
        role.approved o,
        activation_spends o (rw (checked.normal, ← same) at applied),
      )
