-- ===== src/Protocol/Validate/Inversion.antt =====
-- What an accepted event has passed, for the types of each block.
use agent_comms.Base.{ℕ, ◌≡◌, ◌⊎◌, inl, inr, String, arith}
use agent_comms.Model.Payloads.{Payload}
use agent_comms.Model.State.{State}
use agent_comms.Protocol.Result.{Platform, ok}
use agent_comms.Protocol.Agents.{check_standing, check_activate}
use agent_comms.Protocol.Invocations.{check_invocation}
use agent_comms.Protocol.Messages.{check_response}
use agent_comms.Protocol.Tasks.{check_task}
use agent_comms.Protocol.Validate.{validate_transition}

module _ (pf : Platform) (st : State) (actor id : String) (payload : Payload) (now : ℕ)
    {q : Payload} where
  pub validate_claim :
      validate_transition pf st actor "task.claim" id payload now ≡ ok q
      → (check_standing st actor "task.claim" id ≡ ok tt)
        × (check_task st actor "task.claim" id payload now ≡ ok q)
  unfolding validate_transition
  validate_claim h = ground arith

  pub validate_activate :
      validate_transition pf st actor "agent.activate" id payload now ≡ ok q
      → (check_standing st actor "agent.activate" id ≡ ok tt)
        × (check_activate st actor id payload now ≡ ok q)
  unfolding validate_transition
  validate_activate h = ground arith

  pub validate_takeover :
      validate_transition pf st actor "task.takeover" id payload now ≡ ok q
      → check_task st actor "task.takeover" id payload now ≡ ok q
  unfolding validate_transition
  validate_takeover h = ground arith

  pub validate_complete :
      validate_transition pf st actor "task.complete" id payload now ≡ ok q
      → check_task st actor "task.complete" id payload now ≡ ok q
  unfolding validate_transition
  validate_complete h = ground arith

  pub validate_invocation_claim :
      validate_transition pf st actor "invocation.claim" id payload now ≡ ok q
      → check_invocation pf st actor "invocation.claim" id payload now ≡ ok q
  unfolding validate_transition
  validate_invocation_claim h = ground arith

  pub validate_response :
      (typ : String)
      → (typ ≡ "message.ack")
        ⊎ (typ ≡ "message.reject")
        ⊎ (typ ≡ "message.complete")
        ⊎ (typ ≡ "message.resolve")
      → validate_transition pf st actor typ id payload now ≡ ok q
      → check_response st actor typ id payload ≡ ok q
  unfolding validate_transition
  validate_response typ (inl e) h = rw (e) ground (arith, (rw e at h))
  validate_response typ (inr (inl e)) h = rw (e) ground (arith, (rw e at h))
  validate_response typ (inr (inr (inl e))) h = rw (e) ground (arith, (rw e at h))
  validate_response typ (inr (inr (inr e))) h = rw (e) ground (arith, (rw e at h))
