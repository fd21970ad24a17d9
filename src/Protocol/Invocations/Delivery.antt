-- ===== src/Protocol/Invocations/Delivery.antt =====
-- internal/protocol/transitions.go: delivery attempts of an invocation and their outcome.
use agent_comms.Base.{
  ℕ, zero, suc, ◌+◌, ◌*◌, String, Bool, true, false, not, ◌&&◌, ◌||◌, ◌==◌, Option, none, some, ltb,
  leb, if◌then◌else◌, any,
}
use agent_comms.Base.Map.{get}
use agent_comms.Base.Text.{trim_space, to_upper}
use agent_comms.Base.Duration.{second, minute}
use agent_comms.Model.Payloads.{
  Payload, InvocationDeliveryAttempted, InvocationNotified, InvocationDeliveryFailed,
  invocation_delivery_attempted, invocation_notified, invocation_delivery_failed,
}
use agent_comms.Model.State.{State, Invocation, InvocationDelivery, AgentRuntime}
use agent_comms.Protocol.Result.{Result, ok, ◌>>=◌, ◌>>◌, reject_if, found}
use agent_comms.Protocol.Standing.{actor_elevated}
use agent_comms.Protocol.Approvals.{runs_later}
use agent_comms.Protocol.Consumers.{
  runtime_kind, effective_invocation_consumer, consumer_allows_kind, next_delivery_attempt,
  automatic_delivery_attempts,
}
use agent_comms.Protocol.Evidence.{validate_delivery_evidence}

abbrev pub max_delivery_attempts : ℕ
max_delivery_attempts = 10

abbrev pub default_delivery_attempt_lease : ℕ
default_delivery_attempt_lease = 30 * second

abbrev pub max_delivery_attempt_lease : ℕ
max_delivery_attempt_lease = 2 * minute

abbrev is_there {ℓ} : {A : Type ℓ} → Option A → Bool
is_there none = false
is_there (some _) = true

abbrev is_zero : ℕ → Bool
is_zero zero = true
is_zero (suc n) = false

-- The requester, the target, or an actor who governs.
unfoldable pub may_deliver : State → String → Invocation → Bool
may_deliver st actor i = actor == i.requested_by || actor == i.target || actor_elevated st actor

-- An attempt of this invocation on this runtime whose lease still runs.
unfoldable pub is_live_attempt : String → String → ℕ → InvocationDelivery → Bool
unfolding runs_later
is_live_attempt id runtime_id now d =
    d.invocation_id == id
    && d.runtime_id == runtime_id
    && d.status == "ATTEMPTED"
    && runs_later d.attempt_until now

unfoldable pub has_live_attempt : State → String → String → ℕ → Bool
unfolding is_live_attempt any
has_live_attempt st id runtime_id now =
    any (λ entry. is_live_attempt id runtime_id now entry.1) st.deliveries

-- The runtime can take the delivery.
unfoldable pub check_delivery_runtime : Invocation → AgentRuntime → String → Result (Unit {0})
check_delivery_runtime i runtime runtime_id = do
  let kind = runtime_kind runtime.kind runtime.connector
  reject_if (not (runtime.agent_id == i.target))
      "delivery runtime must belong to the invocation target"
  reject_if (not (consumer_allows_kind (effective_invocation_consumer i.consumer_mode) kind))
      "delivery runtime does not match the invocation consumer mode"
  reject_if (not (i.preferred_runtime_id == "") && not (i.preferred_runtime_id == runtime_id))
      "delivery runtime does not match the preferred runtime"
  reject_if (runtime.status == "DRAINING" || runtime.status == "REVOKED")
      "delivery runtime is draining or revoked"
  reject_if (kind == "INTERACTIVE" && not (runtime.status == "ONLINE"))
      "interactive delivery runtime must be online"

-- The transport, host and endpoint of the attempt, taken from the runtime where they are missing.
unfoldable pub resolve_endpoint :
    AgentRuntime → InvocationDeliveryAttempted → Result (String × String × String)
unfolding trim_space to_upper
resolve_endpoint runtime p = do
  let kind = runtime_kind runtime.kind runtime.connector
  let named = to_upper (trim_space p.transport)
  let transport = if named == "" then runtime.connector else named
  reject_if (not (transport == runtime.connector))
      "delivery transport must match the registered runtime connector"
  reject_if (transport == "MANUAL" || transport == "MCP" || transport == "QUEUE")
      "runtime does not support notification delivery attempts"
  let host = if p.host_id == "" then runtime.host_id else p.host_id
  reject_if (not (host == runtime.host_id)) "delivery host ID must match the registered runtime"
  reject_if (kind == "INTERACTIVE" && trim_space runtime.endpoint_id == "")
      "interactive delivery runtime has no active endpoint"
  let endpoint =
      if kind == "INTERACTIVE" && p.endpoint_id == "" then runtime.endpoint_id else p.endpoint_id
  reject_if (kind == "INTERACTIVE" && not (endpoint == runtime.endpoint_id))
      "delivery endpoint ID must match the active interactive runtime endpoint"
  reject_if (not (kind == "INTERACTIVE") && not (trim_space p.endpoint_id == ""))
      "worker delivery attempt must not contain an interactive endpoint ID"
  ok (transport, host, endpoint)

unfoldable pub check_invocation_delivery_attempted :
    State → String → String → Invocation → Bool → InvocationDeliveryAttempted → ℕ → Result Payload
unfolding get trim_space may_deliver
check_invocation_delivery_attempted st actor id i exists p now = do
  reject_if (not exists) "invocation not found"
  reject_if (not (i.status == "PENDING") && not (i.status == "NOTIFIED"))
      "cannot attempt delivery of an invocation that is not open"
  reject_if (not (may_deliver st actor i))
      "invocation requester, target, owner, or orchestrator required"
  reject_if (trim_space p.delivery_id == "" || trim_space p.runtime_id == "")
      "delivery ID and runtime ID are required"
  reject_if (is_there (get p.delivery_id st.deliveries)) "invocation delivery already exists"
  runtime ←
      found (get p.runtime_id st.runtimes) "delivery runtime must belong to the invocation target"
  check_delivery_runtime i runtime p.runtime_id
  resolved ← resolve_endpoint runtime p
  reject_if (has_live_attempt st id p.runtime_id now)
      "an unexpired delivery attempt already exists for this runtime"
  reject_if (not p.manual && leb max_delivery_attempts (automatic_delivery_attempts st id))
      "automatic delivery attempts exhausted at 10"
  let until =
      if is_zero p.attempt_until then now + default_delivery_attempt_lease else p.attempt_until
  reject_if (not (ltb now until) || ltb (now + max_delivery_attempt_lease) until)
      "delivery attempt lease must be within 2m0s"
  ok (
      invocation_delivery_attempted (record p {
        transport = resolved.0;
        host_id = resolved.1;
        endpoint_id = resolved.2;
        attempt = next_delivery_attempt st id;
        attempt_until = until;
      }))

-- The delivery that an outcome closes.
unfoldable pub attempted_delivery : State → String → String → Result InvocationDelivery
unfolding get
attempted_delivery st id delivery_id = do
  delivery ← found (get delivery_id st.deliveries) "matching attempted delivery is required"
  reject_if (not (delivery.invocation_id == id) || not (delivery.status == "ATTEMPTED"))
      "matching attempted delivery is required"
  ok delivery

unfoldable pub check_invocation_notified :
    State → String → String → Invocation → Bool → InvocationNotified → ℕ → Result Payload
unfolding trim_space may_deliver attempted_delivery runs_later
check_invocation_notified st actor id i exists p now = do
  reject_if (not exists) "invocation not found"
  reject_if (not (may_deliver st actor i))
      "invocation requester, target, owner, or orchestrator required"
  reject_if (trim_space p.delivery_id == "") "delivery ID is required"
  delivery ← attempted_delivery st id p.delivery_id
  reject_if (not (runs_later delivery.attempt_until now)) "delivery attempt lease has expired"
  attempted_at ← found delivery.attempted_at "delivery attempt is missing its reservation timestamp"
  reject_if (delivery.transport == "INTERACTIVE" && not (p.endpoint_id == delivery.endpoint_id))
      "interactive delivery evidence does not match the reserved endpoint"
  validate_delivery_evidence delivery.transport p.endpoint_id p.evidence attempted_at now
  ok (
      invocation_notified (record p {
        runtime_id = delivery.runtime_id;
        attempt = delivery.attempt;
        transport = delivery.transport;
      }))

unfoldable pub check_invocation_delivery_failed :
    State → String → String → Invocation → Bool → InvocationDeliveryFailed → ℕ → Result Payload
unfolding trim_space may_deliver attempted_delivery runs_later
check_invocation_delivery_failed st actor id i exists p now = do
  reject_if (not exists) "invocation not found"
  reject_if (not (may_deliver st actor i))
      "invocation requester, target, owner, or orchestrator required"
  reject_if (trim_space p.delivery_id == "" || trim_space p.error == "")
      "valid delivery ID, attempt, and error are required"
  delivery ← attempted_delivery st id p.delivery_id
  reject_if (not p.final && not (runs_later p.next_retry now))
      "future retry time is required for a retryable delivery failure"
  ok (
      invocation_delivery_failed
        (record p { runtime_id = delivery.runtime_id; attempt = delivery.attempt }))
