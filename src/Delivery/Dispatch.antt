-- ===== src/Delivery/Dispatch.antt =====
-- internal/daemon/connectors.go: Dispatch and what it submits. The authority's answers, the deliveries
-- and the fresh IDs are parameters.
use agent_comms.Base.{
  ℕ, ◌+◌, String, Bool, true, false, not, ◌&&◌, ◌||◌, ◌==◌, Option, none, some, List, [], ◌∷◌, map,
  leb, if◌then◌else◌,
}
use mathlib.Core.List.{◌++◌}
use agent_comms.Base.Map.{Map, get, get_or}
use agent_comms.Base.Integers.{ℤ, add_duration}
use agent_comms.Base.Text.{has}
use agent_comms.Model.Payloads.{
  DeliveryEvidence, InvocationDeliveryAttempted, InvocationDeliveryFailed, InvocationNotified,
}
use agent_comms.Model.State.{State, Invocation, InvocationDelivery, AgentRuntime}
use agent_comms.Model.Zero.{zero_invocation}
use agent_comms.Protocol.Approvals.{runs_later}
use agent_comms.Protocol.Invocations.Delivery.{max_delivery_attempts}
use agent_comms.Inbox.Resolve.{sort_texts}
use agent_comms.Delivery.Attempts.{
  delivery_attempt, automatic_delivery_attempt_count, delivery_retry_pending, delivery_backoff,
}
use agent_comms.Delivery.Configs.{ConnectorConfig, Dispatcher}
use agent_comms.Delivery.Select.{Candidate, select_runtime}

pub data DeliveryEvent : Type 0 where
  attempted : InvocationDeliveryAttempted → DeliveryEvent
  failed : InvocationDeliveryFailed → DeliveryEvent
  notified : InvocationNotified → DeliveryEvent

pub record Submission : Type 0 where
  pub actor : String
  pub invocation_id : String
  pub event : DeliveryEvent

pub data Outcome : Type 0 where
  delivered : String → List DeliveryEvidence → Outcome
  undelivered : String → Outcome

pub record World : Type 0 where
  pub accepts : Submission → Bool
  pub deliver : ConnectorConfig → Invocation → AgentRuntime → Outcome
  pub fresh_id : String → String

-- What was submitted, and whether the loop goes on.
pub record Round : Type 0 where
  pub submitted : List Submission
  pub goes_on : Bool

abbrev pub no_round : Round
no_round = record { submitted = []; goes_on = true }

abbrev time_after : ℕ → Option ℤ → Option ℕ
time_after now none = none
time_after now (some wait) = some (add_duration now wait)

-- The time of the next try of an attempt, unless it was the last. The numbers of attempts start at 1, so
-- that the back-off is there.
abbrev pub retry_after : Bool → ℕ → ℕ → Option ℕ
retry_after true now attempt = none
retry_after false now attempt = time_after now (delivery_backoff attempt)

unfoldable pub attempt_event : World → Invocation → AgentRuntime → Submission
attempt_event world i runtime = record {
  actor = runtime.agent_id;
  invocation_id = i.id;
  event = attempted (record {
    delivery_id = world.fresh_id i.id;
    runtime_id = runtime.id;
    transport = runtime.connector;
    host_id = runtime.host_id;
    endpoint_id = runtime.endpoint_id;
    attempt = 0;
    manual = false;
    attempt_until = 0;
  });
}

-- The event of the outcome.
unfoldable pub outcome_event : World → State → ℕ → Invocation → AgentRuntime → Outcome → Submission
unfolding automatic_delivery_attempt_count delivery_attempt
outcome_event world st now i runtime (undelivered message) =
    let final = leb max_delivery_attempts (automatic_delivery_attempt_count st i.id + 1) in
    record {
      actor = runtime.agent_id;
      invocation_id = i.id;
      event = failed (record {
        delivery_id = world.fresh_id i.id;
        runtime_id = runtime.id;
        attempt = delivery_attempt st i.id + 1;
        error = message;
        next_retry = retry_after final now (delivery_attempt st i.id + 1);
        final = final;
      });
    }
outcome_event world st now i runtime (delivered endpoint evidence) = record {
  actor = runtime.agent_id;
  invocation_id = i.id;
  event = notified (record {
    delivery_id = world.fresh_id i.id;
    runtime_id = runtime.id;
    attempt = delivery_attempt st i.id + 1;
    transport = runtime.connector;
    endpoint_id = endpoint;
    evidence = evidence;
  });
}

-- A refused attempt is passed over; an outcome that is refused ends the loop.
unfoldable pub deliver_to : World → State → ℕ → Invocation → Candidate → Round
unfolding attempt_event outcome_event
deliver_to world st now i c =
    let attempt = attempt_event world i c.runtime in
    let outcome = outcome_event world st now i c.runtime (world.deliver c.config i c.runtime) in
    if world.accepts attempt
    then record { submitted = attempt ∷ outcome ∷ []; goes_on = world.accepts outcome }
    else record { submitted = attempt ∷ []; goes_on = true }

unfoldable pub deliver_selected : World → State → ℕ → Invocation → Option Candidate → Round
unfolding deliver_to automatic_delivery_attempt_count
deliver_selected world st now i none = no_round
deliver_selected world st now i (some c) =
    if leb max_delivery_attempts (automatic_delivery_attempt_count st i.id)
    then no_round
    else deliver_to world st now i c

-- One invocation; `expired` are those for which an expiry has just been submitted.
unfoldable pub dispatch_one :
    World → Dispatcher → State → ℕ → List String → String → Invocation → Round
unfolding has delivery_retry_pending select_runtime deliver_selected
dispatch_one world d st now expired id i =
    if has expired id || not (i.status == "PENDING") || delivery_retry_pending st i.id now
    then no_round
    else deliver_selected world st now i (select_runtime d st i)

unfoldable pub dispatch_all :
    World → Dispatcher → State → ℕ → List String → List String → List Submission
unfolding dispatch_one get_or
dispatch_all world d st now expired [] = []
dispatch_all world d st now expired (id ∷ ids) =
    let round = dispatch_one world d st now expired id (get_or zero_invocation id st.invocations) in
    let rest = dispatch_all world d st now expired ids in
    if round.goes_on then round.submitted ++ rest else round.submitted

-- The loop of Dispatch, behind the expiries
unfoldable pub dispatch : World → Dispatcher → State → ℕ → List String → List Submission
unfolding dispatch_all sort_texts
dispatch world d st now expired =
    dispatch_all world d st now expired (sort_texts (map (λ x. x.0) st.invocations))

-- An attempt whose lease has run out.
unfoldable pub is_overdue : ℕ → InvocationDelivery → Bool
unfolding runs_later
is_overdue now d = elim d.attempt_until [
  | none ↦ false
  | some until ↦ d.status == "ATTEMPTED" && not (runs_later (some until) now)
]

unfoldable pub overdue_event : State → ℕ → InvocationDelivery → Invocation → Submission
unfolding automatic_delivery_attempt_count
overdue_event st now d i =
    let final =
      not d.manual
      && leb max_delivery_attempts (automatic_delivery_attempt_count st d.invocation_id) in
    record {
      actor = i.target;
      invocation_id = d.invocation_id;
      event = failed (record {
        delivery_id = d.id;
        runtime_id = d.runtime_id;
        attempt = d.attempt;
        error = "delivery attempt lease expired";
        next_retry = retry_after final now d.attempt;
        final = final;
      });
    }

abbrev pub add_expiry :
    State → ℕ → InvocationDelivery → Option Invocation → List Submission → List Submission
add_expiry st now d none rest = rest
add_expiry st now d (some i) rest = overdue_event st now d i ∷ rest

-- expireAttempts where every event is accepted
unfoldable pub expire_attempts : State → ℕ → Map InvocationDelivery → List Submission
unfolding is_overdue overdue_event get
expire_attempts st now [] = []
expire_attempts st now ((_, d) ∷ ds) =
    let rest = expire_attempts st now ds in
    if is_overdue now d then add_expiry st now d (get d.invocation_id st.invocations) rest else rest

-- recordDeliveryFailure
unfoldable pub record_delivery_failure :
    State → ℕ → Invocation → InvocationDelivery → String → Submission
unfolding automatic_delivery_attempt_count
record_delivery_failure st now i d message =
    let final = d.manual || leb max_delivery_attempts (automatic_delivery_attempt_count st i.id) in
    record {
      actor = i.target;
      invocation_id = i.id;
      event = failed (record {
        delivery_id = d.id;
        runtime_id = d.runtime_id;
        attempt = d.attempt;
        error = message;
        next_retry = retry_after final now d.attempt;
        final = final;
      });
    }
