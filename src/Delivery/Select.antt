-- ===== src/Delivery/Select.antt =====
-- internal/daemon/connectors.go: selectRuntime.
use agent_comms.Base.{
  ℕ, suc, String, Bool, not, ◌&&◌, ◌||◌, ◌==◌, Option, none, some, List, [], ◌∷◌, map, ltb, leb,
  length, if◌then◌else◌,
}
use agent_comms.Base.Map.{Map, get, get_or}
use agent_comms.Model.State.{State, Invocation, AgentRuntime}
use agent_comms.Model.Zero.{zero_runtime}
use agent_comms.Inbox.Resolve.{sort_texts}
use agent_comms.Delivery.Attempts.{
  effective_runtime_kind, effective_delivery_mode, consumer_mode_allows_runtime,
}
use agent_comms.Delivery.Configs.{ConnectorConfig, Dispatcher, interactive_config}

pub record Candidate : Type 0 where
  pub runtime : AgentRuntime
  pub config : ConnectorConfig

unfoldable pub is_excluded : Invocation → AgentRuntime → Bool
is_excluded i runtime =
    not (runtime.agent_id == i.target)
    || runtime.status == "DRAINING"
    || runtime.status == "REVOKED"
    || leb runtime.max_concurrent (length runtime.active_invocations)
    || (not (i.preferred_runtime_id == "") && not (i.preferred_runtime_id == runtime.id))

unfoldable pub is_local_session : Dispatcher → AgentRuntime → Bool
is_local_session d runtime = not (
    not (runtime.status == "ONLINE")
    || runtime.host_id == ""
    || d.host_id == ""
    || not (runtime.host_id == d.host_id)
    || not (runtime.connector == "INTERACTIVE")
    || d.project_root == "")

abbrev pub with_type : String → AgentRuntime → Option ConnectorConfig → Option Candidate
with_type connector runtime none = none
with_type connector runtime (some config) =
    if config.typ == connector then some (record { runtime = runtime; config = config }) else none

unfoldable pub worker_candidate : Dispatcher → AgentRuntime → Option Candidate
unfolding get
worker_candidate d runtime =
    if runtime.connector == "MANUAL"
      || runtime.connector == "MCP"
      || runtime.connector == "QUEUE"
      || runtime.config_reference == ""
    then none
    else with_type runtime.connector runtime (get runtime.config_reference d.configs)

-- What the loop makes of one runtime.
unfoldable pub candidate_of : Dispatcher → Invocation → AgentRuntime → Option Candidate
unfolding is_excluded effective_runtime_kind consumer_mode_allows_runtime is_local_session
    worker_candidate
candidate_of d i runtime =
    if is_excluded i runtime
    then none
    else if not (consumer_mode_allows_runtime i.consumer_mode (effective_runtime_kind runtime))
    then none
    else if effective_runtime_kind runtime == "INTERACTIVE"
    then if is_local_session d runtime
      then some (record { runtime = runtime; config = interactive_config })
      else none
    else worker_candidate d runtime

abbrev pub add_candidate : Option Candidate → List Candidate → List Candidate
add_candidate none cs = cs
add_candidate (some c) cs = c ∷ cs

unfoldable pub candidates_in :
    Dispatcher → Invocation → Map AgentRuntime → List String → List Candidate
unfolding candidate_of get_or
candidates_in d i runtimes [] = []
candidates_in d i runtimes (id ∷ ids) =
    add_candidate (candidate_of d i (get_or zero_runtime id runtimes))
      (candidates_in d i runtimes ids)

abbrev pub is_interactive : Candidate → Bool
is_interactive c = effective_runtime_kind c.runtime == "INTERACTIVE"

unfoldable pub count_interactive : List Candidate → ℕ
count_interactive [] = 0
count_interactive (c ∷ cs) =
    let rest = count_interactive cs in if is_interactive c then suc rest else rest

-- The first candidate, passing over interactive ones where `skip` says so.
unfoldable pub first_candidate : Bool → List Candidate → Option Candidate
first_candidate skip [] = none
first_candidate skip (c ∷ cs) =
    let rest = first_candidate skip cs in if skip && is_interactive c then rest else some c

unfoldable pub choose_candidate : Invocation → List Candidate → Option Candidate
unfolding count_interactive first_candidate effective_delivery_mode
choose_candidate i cs =
    let several = ltb 1 (count_interactive cs) in
    if i.preferred_runtime_id == ""
      && effective_delivery_mode i.consumer_mode == "INTERACTIVE_ONLY"
      && several
    then none
    else first_candidate (several && i.preferred_runtime_id == "") cs

unfoldable pub select_runtime : Dispatcher → State → Invocation → Option Candidate
unfolding candidates_in choose_candidate sort_texts
select_runtime d st i =
    choose_candidate i (candidates_in d i st.runtimes (sort_texts (map (λ x. x.0) st.runtimes)))
