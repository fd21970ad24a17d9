-- ===== src/Protocol/Consumers.antt =====
-- internal/protocol/transitions.go: which runtimes may take an invocation, and how many it has.
use agent_comms.Base.{
  ℕ, ◌+◌, String, Bool, false, not, ◌&&◌, ◌||◌, ◌==◌, List, [], ◌∷◌, leb, if◌then◌else◌, is_empty,
}
use agent_comms.Base.Text.{equal_fold, has}
use agent_comms.Base.Map.{Map}
use agent_comms.Model.State.{State, Invocation, InvocationDelivery, InvocationPolicy}

unfoldable pub runtime_kind : String → String → String
unfolding equal_fold
runtime_kind kind connector =
    if not (kind == "")
    then kind
    else if equal_fold connector "INTERACTIVE"
    then "INTERACTIVE"
    else "WORKER"

unfoldable pub valid_consumer_mode : String → Bool
valid_consumer_mode mode = mode == "INTERACTIVE_ONLY" || mode == "WORKER_ONLY" || mode == "EITHER"

unfoldable pub effective_invocation_consumer : String → String
unfolding valid_consumer_mode
effective_invocation_consumer mode = if valid_consumer_mode mode then mode else "EITHER"

unfoldable pub consumer_allows_kind : String → String → Bool
unfolding effective_invocation_consumer
consumer_allows_kind mode kind =
    let effective = effective_invocation_consumer mode in
    if effective == "INTERACTIVE_ONLY"
    then kind == "INTERACTIVE"
    else if effective == "WORKER_ONLY"
    then kind == "WORKER"
    else if effective == "EITHER"
    then kind == "WORKER" || kind == "INTERACTIVE"
    else false

abbrev pub all_consumer_modes : List String
all_consumer_modes = "INTERACTIVE_ONLY" ∷ "WORKER_ONLY" ∷ "EITHER" ∷ []

-- The default mode and the allowed modes of a policy.
unfoldable pub effective_consumer_policy : InvocationPolicy → String × List String
unfolding valid_consumer_mode
effective_consumer_policy policy = (
  if valid_consumer_mode policy.default_consumer_mode
      then policy.default_consumer_mode
      else "EITHER",
  if is_empty policy.allowed_consumer_modes
      then all_consumer_modes
      else policy.allowed_consumer_modes,
)

unfoldable pub contains_consumer_mode : List String → String → Bool
unfolding has
contains_consumer_mode values target = has values target

unfoldable pub next_attempt : String → Map InvocationDelivery → ℕ → ℕ
next_attempt id [] next = next
next_attempt id ((_, d) ∷ rest) next =
    next_attempt id rest
      (if d.invocation_id == id && leb next d.attempt then d.attempt + 1 else next)

unfoldable pub next_delivery_attempt : State → String → ℕ
unfolding next_attempt
next_delivery_attempt st invocation_id = next_attempt invocation_id st.deliveries 1

unfoldable pub count_automatic : String → Map InvocationDelivery → ℕ
count_automatic id [] = 0
count_automatic id ((_, d) ∷ rest) =
    (if d.invocation_id == id && not d.manual then 1 else 0) + count_automatic id rest

unfoldable pub automatic_delivery_attempts : State → String → ℕ
unfolding count_automatic
automatic_delivery_attempts st invocation_id = count_automatic invocation_id st.deliveries

unfoldable pub occupies : String → Invocation → Bool
occupies runtime_id i =
    i.runtime_id == runtime_id
    && (i.status == "CLAIMED" || i.status == "RUNNING" || i.status == "WAITING")

unfoldable pub count_load : String → Map Invocation → ℕ
unfolding occupies
count_load id [] = 0
count_load id ((_, i) ∷ rest) = (if occupies id i then 1 else 0) + count_load id rest

unfoldable pub runtime_invocation_load : State → String → ℕ
unfolding count_load
runtime_invocation_load st runtime_id = count_load runtime_id st.invocations
