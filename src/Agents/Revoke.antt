-- ===== src/Agents/Revoke.antt =====
-- internal/protocol/transitions.go and internal/projection/apply.go: the runtimes of a revoked agent.
use agent_comms.Base.{
  ℕ, ◌≡◌, refl, sym, inl, inr, String, true, false, ◌==◌, some, [], ◌∷◌, arith, eq_iff, Bool-cases,
}
use agent_comms.Base.Map.{Map, get}
use agent_comms.Model.Payloads.{Payload, RuntimeStatusChanged, runtime_status_changed}
use agent_comms.Model.State.{State, Event, Agent, AgentRuntime}
use agent_comms.Protocol.Result.{
  Platform, ok, bind_ok, then_ok, reject_if_ok, found_ok, ok-injective,
}
use agent_comms.Protocol.Standing.{role_owner}
use agent_comms.Protocol.Agents.{check_revoke}
use agent_comms.Protocol.Validate.{validate_transition}
use agent_comms.Projection.Apply.{apply_event}
use agent_comms.Projection.Stamp.{stamp_entity, get-update-put}
use agent_comms.Projection.Agents.{revoke_all, revoke_with, apply_agent_revoked}
use agent_comms.Authority.Advance.{advance, advance_ok}

some-injective : {a b : AgentRuntime} → some a ≡ some b → a ≡ b
some-injective h = cc

-- A runtime that stands under a key after the revocation.
revoke_all-get :
    (e : Event) (k : String) (m : Map AgentRuntime) {r : AgentRuntime}
    → get k (revoke_all e m) ≡ some r
    → (before : AgentRuntime) × (get k m ≡ some before) × (r ≡ revoke_with e before)
unfolding revoke_all get
revoke_all-get e k [] h = cc
revoke_all-get e k ((j, v) ∷ m) h = elim (Bool-cases (j == k)) [
  | inl same ↦ (v, rw (same) refl, sym (some-injective (rw (same) at h)))
  | inr other ↦
      let (before, there, moved) = revoke_all-get e k m (rw (other) at h) in
      (before, rw (other) there, moved)
]

revoke_with-status :
    (e : Event) (r : AgentRuntime)
    → ((revoke_with e r).agent_id == e.entity_id) ≡ true
    → (revoke_with e r).status ≡ "REVOKED"
unfolding revoke_with
revoke_with-status e r own = ground (arith, eq_iff r.status "REVOKED")

revoke_with-other :
    (e : Event) (r : AgentRuntime) → (r.agent_id == e.entity_id) ≡ false → revoke_with e r ≡ r
unfolding revoke_with
revoke_with-other e r other = ground arith

-- What a revocation leaves.
pub record Revoked (st st' : State) (id : String) : Type 0 where
  pub agent : Agent
  pub there : get id st'.agents ≡ some agent
  pub revoked : agent.status ≡ "REVOKED"
  pub was : Agent
  pub was_there : get id st.agents ≡ some was
  pub no_owner : (was.role == role_owner) ≡ false
  pub no_first : (was.status == "REVOKED") ≡ false
  pub runtimes :
      (k : String) (r : AgentRuntime)
      → get k st'.runtimes ≡ some r
      → (r.agent_id == id) ≡ true
      → r.status ≡ "REVOKED"

module _ (pf : Platform) (st : State) (actor id event_id : String) (now sequence : ℕ)
    (p : RuntimeStatusChanged) where
  abbrev pub revoke_event : Event
  revoke_event = record {
    id = event_id;
    sequence = sequence;
    time = now;
    actor = actor;
    typ = "agent.revoke";
    entity_id = id;
    payload = runtime_status_changed p;
  }

  validate_revoke :
      {q : Payload}
      → validate_transition pf st actor "agent.revoke" id (runtime_status_changed p) now ≡ ok q
      → (check_revoke st actor id ≡ ok tt) × (q ≡ runtime_status_changed p)
  unfolding validate_transition
  validate_revoke h = ground arith

  revoke_checks :
      check_revoke st actor id ≡ ok tt
      → (was : Agent) × (get id st.agents ≡ some was)
        × ((was.role == role_owner) ≡ false)
        × ((was.status == "REVOKED") ≡ false)
  unfolding check_revoke
  revoke_checks h =
      let (was, g1, h1) = bind_ok _ _ h in
      let (g2, h2) = then_ok _ _ h1 in
      let (g3, h3) = then_ok _ _ h2 in
      (was, found_ok _ _ g1, reject_if_ok _ _ g3, reject_if_ok _ _ g2)

  all_revoked :
      (k : String) (r : AgentRuntime)
      → get k (revoke_all revoke_event st.runtimes) ≡ some r
      → (r.agent_id == id) ≡ true
      → r.status ≡ "REVOKED"
  all_revoked k r there own =
      let (before, _, moved) = revoke_all-get revoke_event k st.runtimes there in
      rw (moved) (revoke_with-status revoke_event before (rw (moved) at own))

  -- A revocation that is accepted strikes a principal that is neither the owner nor revoked; after it
  -- the principal is revoked, and so is every runtime that belongs to it.
  pub revoke_reaches_runtimes :
      {st' : State} → advance pf st revoke_event ≡ ok st' → Revoked st st' id
  unfolding apply_event apply_agent_revoked stamp_entity
  revoke_reaches_runtimes h =
      let (q, _, valid, applied) = advance_ok pf st revoke_event h in
      let (accepted, same) = validate_revoke valid in
      let (was, was_there, no_owner, no_first) = revoke_checks accepted in
      let next = ok-injective (rw (same) at applied) in
      rw (← next) (record {
        agent = _;
        there = get-update-put id _ _ st.agents;
        revoked = refl;
        was = was;
        was_there = was_there;
        no_owner = no_owner;
        no_first = no_first;
        runtimes = all_revoked;
      })
