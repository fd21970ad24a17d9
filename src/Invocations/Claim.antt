-- ===== src/Invocations/Claim.antt =====
-- internal/protocol/transitions.go and internal/projection/apply.go: the claim of an invocation.
use agent_comms.Base.{ℕ, ◌+◌, ◌≤◌, ◌<◌, ◌≡◌, refl, String, some, arith, sym, ◌∙◌}
use agent_comms.Base.Map.{get, get_or}
use agent_comms.Model.Payloads.{Payload, InvocationClaimed, invocation_claimed}
use agent_comms.Model.State.{State, Event, Invocation, AgentRuntime}
use agent_comms.Model.Zero.{zero_invocation}
use agent_comms.Protocol.Result.{Platform, ok, ok-injective}
use agent_comms.Protocol.Consumers.{runtime_invocation_load, occupies}
use agent_comms.Protocol.Invocations.{check_invocation}
use agent_comms.Protocol.Invocations.Work.{max_claim_lease}
use agent_comms.Protocol.Validate.Inversion.{validate_invocation_claim}
use agent_comms.Projection.Apply.{apply_event}
use agent_comms.Projection.Invocations.{apply_invocation_claimed}
use agent_comms.Projection.Stamp.{stamp_entity, stamp_clock, get-update-put}
use agent_comms.Authority.Advance.{advance, advance_ok}
use agent_comms.Invocations.Capacity.{
  ClaimChecked, check_invocation_claimed-ClaimChecked, count_load-put, count_load-update,
}

module _ (pf : Platform) (st : State) (actor id event_id : String) (now sequence : ℕ)
    (p : InvocationClaimed) where
  abbrev pub claim_event : Event
  claim_event = record {
    id = event_id;
    sequence = sequence;
    time = now;
    actor = actor;
    typ = "invocation.claim";
    entity_id = id;
    payload = invocation_claimed p;
  }

  claim_checks :
      {q : Payload}
      → check_invocation pf st actor "invocation.claim" id (invocation_claimed p) now ≡ ok q
      → ClaimChecked st actor (get_or zero_invocation id st.invocations) p now q
  unfolding check_invocation
  claim_checks h = check_invocation_claimed-ClaimChecked st actor _ _ p now h

  -- The state of the invocation and the load of its runtime behind the claim.
  pub record Claimed (st' : State) (until : ℕ) : Type 0 where
    pub claimed : Invocation
    pub there : get id st'.invocations ≡ some claimed
    pub status : claimed.status ≡ "CLAIMED"
    pub by_actor : claimed.claimed_by ≡ actor
    pub on_runtime : claimed.runtime_id ≡ p.runtime_id
    pub lease : claimed.claim_until ≡ some until
    pub runtimes : st'.runtimes ≡ st.runtimes
    pub load :
        runtime_invocation_load st' p.runtime_id ≤ runtime_invocation_load st p.runtime_id + 1

  claim_applies :
      {st' : State} (until : ℕ)
      → apply_event pf st
          (record claim_event { payload = invocation_claimed (record p { claim_until = until }) })
        ≡ ok st'
      → Claimed st' until
  unfolding apply_event apply_invocation_claimed stamp_entity runtime_invocation_load occupies
  claim_applies until h = rw (← ok-injective h) (record {
    claimed = _;
    there = get-update-put id _ _ st.invocations;
    status = refl;
    by_actor = refl;
    on_runtime = refl;
    lease = refl;
    runtimes = refl;
    load =
        rw
          (count_load-update p.runtime_id id
            (λ i. record i {
              clock = stamp_clock i.clock (record claim_event {
                payload = invocation_claimed (record p { claim_until = until });
              });
            })
            _ (λ i. refl))
          (count_load-put p.runtime_id id _ st.invocations);
  })

  -- A claim that is accepted names a runtime that is online and the actor's own; behind it the runtime
  -- has no more invocations than it may run at once, no runtime has changed, and the invocation is
  -- claimed by the actor on that runtime, on a lease that ends within an hour.
  pub claim_keeps_capacity :
      {st' : State}
      → advance pf st claim_event ≡ ok st'
      → (runtime : AgentRuntime) × (get p.runtime_id st'.runtimes ≡ some runtime)
        × (runtime.status ≡ "ONLINE")
        × (runtime.agent_id ≡ actor)
        × (runtime_invocation_load st' p.runtime_id ≤ runtime.max_concurrent)
        × (until : ℕ) × (now < until)
        × (until ≤ now + max_claim_lease)
        × Claimed st' until
  claim_keeps_capacity h =
      let (q, _, valid, applied) = advance_ok pf st claim_event h in
      let checked =
        claim_checks (validate_invocation_claim pf st actor id (invocation_claimed p) now valid) in
      let claimed = claim_applies checked.until (rw (checked.normal) at applied) in
      let load = claimed.load in
      let room = checked.room in
      (
        checked.runtime,
        rw (claimed.runtimes) checked.there,
        checked.online,
        checked.of_target ∙ sym checked.own,
        omega arith,
        checked.until,
        checked.starts,
        checked.ends,
        claimed,
      )
