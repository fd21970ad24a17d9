-- ===== src/Invocations/Expiry.antt =====
-- internal/protocol/transitions.go and internal/projection/apply.go: the expiry of an invocation, which
-- looks at no status.
use agent_comms.Base.{ℕ, ◌≡◌, ap, refl, String, true, false, ◌==◌, some}
use agent_comms.Base.Map.{get, get_or-get}
use agent_comms.Base.Text.{trim_space}
use agent_comms.Model.EventTypes.{decodes}
use agent_comms.Model.Payloads.{InvocationRejected, invocation_rejected}
use agent_comms.Model.State.{State, Event, Invocation, Agent}
use agent_comms.Model.Zero.{zero_invocation}
use agent_comms.Protocol.Result.{Platform, ok}
use agent_comms.Protocol.Standing.{active}
use agent_comms.Protocol.Agents.{check_standing}
use agent_comms.Protocol.Invocations.{check_invocation}
use agent_comms.Protocol.Invocations.Work.{check_invocation_rejected, check_ending, deadline_ahead}
use agent_comms.Protocol.Validate.{validate_transition}
use agent_comms.Projection.Apply.{apply_event}
use agent_comms.Projection.Invocations.{apply_invocation_rejected}
use agent_comms.Projection.Stamp.{stamp_entity, get-update-put}
use agent_comms.Authority.Advance.{advance}

module _ (pf : Platform) (st : State) (actor id event_id : String) (now sequence : ℕ)
    (p : InvocationRejected) where
  abbrev pub expiry_event : Event
  expiry_event = record {
    id = event_id;
    sequence = sequence;
    time = now;
    actor = actor;
    typ = "invocation.expire";
    entity_id = id;
    payload = invocation_rejected p;
  }

  expiry_valid :
      (a : Agent) (i : Invocation)
      → get actor st.agents ≡ some a
      → (actor == "") ≡ false
      → a.status ≡ "ACTIVE"
      → get id st.invocations ≡ some i
      → (actor == i.requested_by) ≡ true
      → deadline_ahead i.deadline now ≡ false
      → (trim_space p.reason == "") ≡ false
      → validate_transition pf st actor "invocation.expire" id (invocation_rejected p) now
        ≡ ok (invocation_rejected p)
  unfolding validate_transition check_standing active check_invocation check_invocation_rejected
      check_ending
  expiry_valid a i there named awake there_i own past reason =
      rw
        (
          named,
          there,
          awake,
          there_i,
          reason,
          get_or-get zero_invocation id st.invocations there_i,
          check_ending,
          own,
          past,
        )
        refl

  -- An expiry with a reason, by the active requester of an invocation whose deadline has passed, is
  -- accepted whatever the status of the invocation is; it is expired afterwards, with its summary kept.
  pub past_deadline_expires :
      (a : Agent) (i : Invocation)
      → get actor st.agents ≡ some a
      → (actor == "") ≡ false
      → a.status ≡ "ACTIVE"
      → get id st.invocations ≡ some i
      → (actor == i.requested_by) ≡ true
      → deadline_ahead i.deadline now ≡ false
      → (trim_space p.reason == "") ≡ false
      → (st' : State) × (advance pf st expiry_event ≡ ok st')
        × (i' : Invocation) × (get id st'.invocations ≡ some i')
        × (i'.status ≡ "EXPIRED")
        × (i'.summary ≡ i.summary)
  unfolding advance decodes apply_event apply_invocation_rejected stamp_entity
  past_deadline_expires a i there named awake there_i own past reason = (
    stamp_entity (apply_invocation_rejected st expiry_event p) expiry_event,
    rw (expiry_valid a i there named awake there_i own past reason) refl,
    _,
    get-update-put id _ _ st.invocations,
    refl,
    ap (λ v. v.summary) (get_or-get zero_invocation id st.invocations there_i),
  )
