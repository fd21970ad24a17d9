-- ===== src/Protocol/Validate/Acceptance.antt =====
-- internal/protocol/transitions.go: an event of an active agent that its own block accepts is accepted by
-- ValidateTransition.
use agent_comms.Base.{ℕ, ◌≡◌, ◌==◌, refl, String, false, some}
use agent_comms.Base.Map.{get}
use agent_comms.Model.Payloads.{Payload}
use agent_comms.Model.State.{State, Agent}
use agent_comms.Protocol.Result.{Platform, ok}
use agent_comms.Protocol.Agents.{check_standing}
use agent_comms.Protocol.Standing.{active}
use agent_comms.Protocol.Invocations.{check_invocation}
use agent_comms.Protocol.Validate.{validate_transition}

-- The agent is registered under this ID, which is not empty, and is active.
pub record IsActive (st : State) (actor : String) : Type 0 where
  pub agent : Agent
  pub named : (actor == "") ≡ false
  pub known : get actor st.agents ≡ some agent
  pub status : agent.status ≡ "ACTIVE"

claim_standing :
    (st : State) (actor id : String)
    → IsActive st actor
    → check_standing st actor "invocation.claim" id ≡ ok tt
unfolding check_standing active
claim_standing st actor id a = rw (a.known) rw (a.status) refl

attempt_standing :
    (st : State) (actor id : String)
    → IsActive st actor
    → check_standing st actor "invocation.delivery-attempt" id ≡ ok tt
unfolding check_standing active
attempt_standing st actor id a = rw (a.known) rw (a.status) refl

module _ (pf : Platform) (st : State) (actor id : String) (payload : Payload) (now : ℕ)
    {q : Payload} where
  pub claim_accepted :
      IsActive st actor
      → check_invocation pf st actor "invocation.claim" id payload now ≡ ok q
      → validate_transition pf st actor "invocation.claim" id payload now ≡ ok q
  unfolding validate_transition
  claim_accepted a h = rw (a.named) rw (claim_standing st actor id a) rw (h) refl

  pub attempt_accepted :
      IsActive st actor
      → check_invocation pf st actor "invocation.delivery-attempt" id payload now ≡ ok q
      → validate_transition pf st actor "invocation.delivery-attempt" id payload now ≡ ok q
  unfolding validate_transition
  attempt_accepted a h = rw (a.named) rw (attempt_standing st actor id a) rw (h) refl
