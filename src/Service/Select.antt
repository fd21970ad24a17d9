-- ===== src/Service/Select.antt =====
-- internal/service/service.go: SelectNextInvocation. The loop has the selected invocation as its state.
use agent_comms.Base.{
  ℕ, ◌+◌, String, Bool, false, not, ◌&&◌, ◌||◌, ◌==◌, Option, none, some, [], ◌∷◌, ltb, leb,
  if◌then◌else◌,
}
use agent_comms.Base.Map.{Map, get}
use agent_comms.Model.State.{State, Invocation, AgentRuntime}
use agent_comms.Protocol.Consumers.{occupies}

-- The rank of a priority, 0 for one that the table does not have.
unfoldable pub priority_rank : String → ℕ
priority_rank priority =
    if priority == "URGENT"
    then 4
    else if priority == "HIGH"
    then 3
    else if priority == "NORMAL"
    then 2
    else if priority == "LOW"
    then 1
    else 0

unfoldable pub load_of : String → Map Invocation → ℕ → ℕ
unfolding occupies
load_of runtime_id [] load = load
load_of runtime_id ((id, i) ∷ rest) load =
    load_of runtime_id rest (if occupies runtime_id i then load + 1 else load)

-- runtimeLoad
unfoldable pub runtime_load : State → String → ℕ
unfolding load_of
runtime_load st runtime_id = load_of runtime_id st.invocations 0

abbrev pub mode_or_either : String → String
mode_or_either mode = if mode == "" then "EITHER" else mode

abbrev pub kind_or_worker : String → String
kind_or_worker kind = if kind == "" then "WORKER" else kind

-- Without a runtime only an invocation for any consumer is fit.
abbrev pub fits_anyone : Invocation → Bool
fits_anyone i =
    not (not (mode_or_either i.consumer_mode == "EITHER") || not (i.preferred_runtime_id == ""))

abbrev pub fits_runtime : String → AgentRuntime → Invocation → Bool
fits_runtime runtime_id runtime i = not (
    (mode_or_either i.consumer_mode == "INTERACTIVE_ONLY"
      && not (kind_or_worker runtime.kind == "INTERACTIVE"))
    || (mode_or_either i.consumer_mode == "WORKER_ONLY"
        && not (kind_or_worker runtime.kind == "WORKER"))
    || (not (i.preferred_runtime_id == "") && not (i.preferred_runtime_id == runtime_id)))

abbrev pub deadline_passed : Option ℕ → ℕ → Bool
deadline_passed none now = false
deadline_passed (some d) now = not (ltb now d)

abbrev pub is_eligible : String → (Invocation → Bool) → ℕ → Invocation → Bool
is_eligible actor fits now i =
    i.target == actor
    && (i.status == "PENDING" || i.status == "NOTIFIED")
    && fits i
    && not (deadline_passed i.deadline now)

-- A rank and a time of creation come before others.
unfoldable pub comes_first : ℕ → ℕ → ℕ → ℕ → Bool
comes_first rank time rank' time' =
    ltb rank' rank || (leb rank' rank && leb rank rank' && ltb time time')

-- The first is taken in place of the second.
unfoldable pub is_better : Invocation → Invocation → Bool
unfolding priority_rank comes_first
is_better i j =
    comes_first (priority_rank i.priority) i.clock.created_at (priority_rank j.priority)
      j.clock.created_at

unfoldable pub prefer : Option Invocation → Invocation → Option Invocation
unfolding is_better
prefer none i = some i
prefer (some j) i = if is_better i j then some i else some j

unfoldable pub select_from :
    (Invocation → Bool) → Map Invocation → Option Invocation → Option Invocation
unfolding prefer
select_from eligible [] selected = selected
select_from eligible ((id, i) ∷ rest) selected =
    select_from eligible rest (if eligible i then prefer selected i else selected)

unfoldable pub is_available : State → String → String → AgentRuntime → Bool
unfolding runtime_load
is_available st actor runtime_id runtime = not (
    not (runtime.agent_id == actor)
    || not (runtime.status == "ONLINE")
    || leb runtime.max_concurrent (runtime_load st runtime_id))

unfoldable pub select_for_runtime :
    State → String → String → ℕ → Option AgentRuntime → Option Invocation
unfolding select_from is_available
select_for_runtime st actor runtime_id now none = none
select_for_runtime st actor runtime_id now (some runtime) =
    if is_available st actor runtime_id runtime
    then select_from (is_eligible actor (fits_runtime runtime_id runtime) now) st.invocations none
    else none

-- SelectNextInvocation
unfoldable pub select_next_invocation : State → String → String → ℕ → Option Invocation
unfolding select_from select_for_runtime get
select_next_invocation st actor runtime_id now =
    if runtime_id == ""
    then select_from (is_eligible actor fits_anyone now) st.invocations none
    else select_for_runtime st actor runtime_id now (get runtime_id st.runtimes)
