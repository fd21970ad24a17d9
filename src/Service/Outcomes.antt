-- ===== src/Service/Outcomes.antt =====
-- internal/service/service.go: SummarizeInvocationDelivery, what became of the delivery of an invocation.
use agent_comms.Base.{
  ℕ, ◌+◌, String, Bool, not, ◌&&◌, ◌||◌, ◌==◌, Option, none, some, List, [], ◌∷◌, ltb,
  if◌then◌else◌,
}
use agent_comms.Base.Map.{Map, get}
use agent_comms.Model.Payloads.{DeliveryEvidence}
use agent_comms.Model.State.{State, Invocation, InvocationDelivery, AgentRuntime}
use agent_comms.Service.Select.{mode_or_either}

pub record InvocationDeliveryResult : Type 0 where
  pub outcome : String
  pub invocation_id : String
  pub delivery_id : String
  pub runtime_id : String
  pub transport : String
  pub evidence : List DeliveryEvidence
  pub error : String

-- The delivery is of the invocation and, where one is named, it is the named one.
abbrev pub concerns : String → String → InvocationDelivery → Bool
concerns invocation_id delivery_id d = not (
    not (d.invocation_id == invocation_id)
    || (not (delivery_id == "") && not (d.id == delivery_id)))

unfoldable pub newer : Option InvocationDelivery → InvocationDelivery → Option InvocationDelivery
newer none d = some d
newer (some selected) d = if ltb selected.attempt d.attempt then some d else some selected

unfoldable pub latest_of :
    (InvocationDelivery → Bool)
    → Map InvocationDelivery
    → Option InvocationDelivery
    → Option InvocationDelivery
unfolding newer
latest_of concerned [] selected = selected
latest_of concerned ((id, d) ∷ rest) selected =
    latest_of concerned rest (if concerned d then newer selected d else selected)

abbrev pub is_local_interactive : String → String → AgentRuntime → Bool
is_local_interactive target local_host_id r =
    r.agent_id == target
    && r.kind == "INTERACTIVE"
    && r.connector == "INTERACTIVE"
    && r.status == "ONLINE"
    && not (local_host_id == "")
    && r.host_id == local_host_id

unfoldable pub eligible_interactive : String → String → Map AgentRuntime → ℕ → ℕ
eligible_interactive target local_host_id [] n = n
eligible_interactive target local_host_id ((id, r) ∷ rest) n =
    eligible_interactive target local_host_id rest
      (if is_local_interactive target local_host_id r then n + 1 else n)

-- A result that names no delivery.
abbrev pub without_delivery : String → String → String → InvocationDeliveryResult
without_delivery invocation_id outcome error = record {
  outcome = outcome;
  invocation_id = invocation_id;
  delivery_id = "";
  runtime_id = "";
  transport = "";
  evidence = [];
  error = error;
}

unfoldable pub undelivered_result : State → String → String → Invocation → InvocationDeliveryResult
unfolding eligible_interactive
undelivered_result st invocation_id local_host_id i =
    if not (mode_or_either i.consumer_mode == "INTERACTIVE_ONLY")
    then without_delivery invocation_id "PENDING_CONSUMER" ""
    else if i.preferred_runtime_id == ""
        && ltb 1 (eligible_interactive i.target local_host_id st.runtimes 0)
    then without_delivery invocation_id "AMBIGUOUS"
        "multiple local interactive runtimes are eligible; select a preferred runtime"
    else without_delivery invocation_id "UNAVAILABLE"
        "no compatible local interactive delivery completed"

unfoldable pub outcome_of : String → String
outcome_of status =
    if status == "SUCCEEDED"
    then "SUCCEEDED"
    else if status == "NOTIFIED"
    then "LEGACY_UNVERIFIED"
    else if status == "ATTEMPTED"
    then "ATTEMPTED"
    else "UNAVAILABLE"

unfoldable pub delivered_result : String → InvocationDelivery → InvocationDeliveryResult
unfolding outcome_of
delivered_result invocation_id d = record {
  outcome = outcome_of d.status;
  invocation_id = invocation_id;
  delivery_id = d.id;
  runtime_id = d.runtime_id;
  transport = d.transport;
  evidence = d.evidence;
  error =
      if d.status == "NOTIFIED" && d.error == ""
      then "legacy notification has no transport evidence"
      else d.error;
}

unfoldable pub summarize_known :
    State → String → String → String → Option Invocation → Option InvocationDeliveryResult
unfolding latest_of undelivered_result delivered_result
summarize_known st invocation_id delivery_id local_host_id none = none
summarize_known st invocation_id delivery_id local_host_id (some i) =
    elim (latest_of (concerns invocation_id delivery_id) st.deliveries none) [
      | none ↦ some (undelivered_result st invocation_id local_host_id i)
      | some d ↦ some (delivered_result invocation_id d)
    ]

-- SummarizeInvocationDelivery
unfoldable pub summarize_invocation_delivery :
    State → String → String → String → Option InvocationDeliveryResult
unfolding summarize_known get
summarize_invocation_delivery st invocation_id delivery_id local_host_id =
    summarize_known st invocation_id delivery_id local_host_id (get invocation_id st.invocations)
