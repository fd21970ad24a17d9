-- ===== src/Delivery/Accepted.antt =====
-- internal/daemon/connectors.go and internal/protocol/transitions.go: the validator accepts the attempt
-- that the dispatcher submits.
use agent_comms.Base.{ℕ, ◌≡◌, true, false, ◌==◌, List, [], ◌∷◌, leb}
use agent_comms.Model.State.{State, Invocation}
use agent_comms.Protocol.Invocations.Delivery.{max_delivery_attempts}
use agent_comms.Delivery.Attempts.{automatic_delivery_attempt_count, delivery_retry_pending}
use agent_comms.Delivery.Dispatch.{Submission}

-- What Dispatch has tested before it asks for an attempt.
record MayAttempt (st : State) (i : Invocation) (now : ℕ) : Type 0 where
  is_open : (i.status == "PENDING") ≡ true
  idle : delivery_retry_pending st i.id now ≡ false
  fewer : leb max_delivery_attempts (automatic_delivery_attempt_count st i.id) ≡ false

first_of : Submission → List Submission → Submission
first_of s [] = s
first_of s (x ∷ xs) = x
