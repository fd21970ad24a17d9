-- ===== src/Delivery/Attempts.antt =====
-- internal/daemon/connectors.go: the attempts of an invocation, and how long a failed one waits.
use agent_comms.Base.{
  ℕ, zero, suc, ◌+◌, ◌*◌, ◌^◌, String, Bool, false, not, ◌&&◌, ◌||◌, ◌==◌, Option, none, some, [],
  ◌∷◌, ltb, leb, if◌then◌else◌,
}
use agent_comms.Base.Map.{Map}
use agent_comms.Base.Integers.{ℤ, pos, negsuc, int64}
use agent_comms.Base.Duration.{second, minute}
use agent_comms.Model.State.{State, InvocationDelivery, AgentRuntime}
use agent_comms.Protocol.Approvals.{runs_later}

unfoldable pub max_attempt : String → Map InvocationDelivery → ℕ → ℕ
max_attempt id [] most = most
max_attempt id ((_, d) ∷ rest) most =
    max_attempt id rest (if d.invocation_id == id && ltb most d.attempt then d.attempt else most)

-- deliveryAttempt
unfoldable pub delivery_attempt : State → String → ℕ
unfolding max_attempt
delivery_attempt st id = max_attempt id st.deliveries 0

unfoldable pub automatic_from : String → Map InvocationDelivery → ℕ → ℕ
automatic_from id [] count = count
automatic_from id ((_, d) ∷ rest) count =
    automatic_from id rest (if d.invocation_id == id && not d.manual then count + 1 else count)

-- automaticDeliveryAttemptCount
unfoldable pub automatic_delivery_attempt_count : State → String → ℕ
unfolding automatic_from
automatic_delivery_attempt_count st id = automatic_from id st.deliveries 0

unfoldable pub is_pending_delivery : ℕ → InvocationDelivery → Bool
unfolding runs_later
is_pending_delivery now d =
    (d.status == "ATTEMPTED" && runs_later d.attempt_until now) || runs_later d.next_retry_at now

unfoldable pub retry_pending_in : String → ℕ → Map InvocationDelivery → Bool
unfolding is_pending_delivery
retry_pending_in id now [] = false
retry_pending_in id now ((_, d) ∷ rest) =
    (d.invocation_id == id && is_pending_delivery now d) || retry_pending_in id now rest

-- deliveryRetryPending
unfoldable pub delivery_retry_pending : State → String → ℕ → Bool
unfolding retry_pending_in
delivery_retry_pending st id now = retry_pending_in id now st.deliveries

unfoldable pub effective_runtime_kind : AgentRuntime → String
effective_runtime_kind runtime =
    if not (runtime.kind == "")
    then runtime.kind
    else if runtime.connector == "INTERACTIVE"
    then "INTERACTIVE"
    else "WORKER"

unfoldable pub effective_delivery_mode : String → String
effective_delivery_mode mode =
    if mode == "INTERACTIVE_ONLY" || mode == "WORKER_ONLY" || mode == "EITHER"
    then mode
    else "EITHER"

unfoldable pub consumer_mode_allows_runtime : String → String → Bool
unfolding effective_delivery_mode
consumer_mode_allows_runtime mode kind =
    if effective_delivery_mode mode == "INTERACTIVE_ONLY"
    then kind == "INTERACTIVE"
    else if effective_delivery_mode mode == "WORKER_ONLY"
    then kind == "WORKER"
    else kind == "WORKER" || kind == "INTERACTIVE"

abbrev pub base_delivery_backoff : ℕ
base_delivery_backoff = 2 * second

abbrev pub max_delivery_backoff : ℕ
max_delivery_backoff = 5 * minute

abbrev pub lesser : ℕ → ℕ → ℕ
lesser a b = if leb a b then a else b

-- `min` of two durations, the second of which is not negative
abbrev pub lesser_duration : ℤ → ℕ → ℤ
lesser_duration (pos a) b = pos (lesser a b)
lesser_duration (negsuc a) b = negsuc a

-- deliveryBackoff. Attempt 0 would shift by a negative count, at which Go panics: none. The product wraps
-- around as an int64.
unfoldable pub delivery_backoff : ℕ → Option ℤ
delivery_backoff zero = none
delivery_backoff (suc n) =
    some (lesser_duration (int64 (base_delivery_backoff * 2 ^ lesser n 8)) max_delivery_backoff)
