-- ===== src/Protocol/Runtimes.antt =====
-- internal/protocol/transitions.go, ValidateTransition: the `runtime.` block and RefreshRuntimePresence.
use agent_comms.Base.{
  ℕ, zero, suc, ◌+◌, ◌*◌, String, Bool, true, false, not, ◌&&◌, ◌||◌, ◌==◌, Option, none, some,
  List, [], ◌∷◌, ltb, leb, if◌then◌else◌, length, is_empty,
}
use agent_comms.Base.Map.{Map, get, get_or}
use agent_comms.Base.Text.{trim_space, to_upper, has}
use agent_comms.Base.Duration.{second}
use agent_comms.Model.Payloads.{
  Payload, RuntimeRegistered, RuntimeConfigured, RuntimeHeartbeat, RuntimeStatusChanged,
  runtime_registered, runtime_configured, runtime_heartbeat, runtime_status_changed,
}
use agent_comms.Model.State.{State, Invocation, AgentRuntime}
use agent_comms.Model.Zero.{zero_runtime}
use agent_comms.Protocol.Result.{Result, ok, err, ◌>>=◌, ◌>>◌, reject_if, found}
use agent_comms.Protocol.Standing.{actor_elevated}
use agent_comms.Protocol.Consumers.{runtime_kind, runtime_invocation_load}
use agent_comms.Protocol.Evidence.{normalize_runtime_definition}

abbrev pub max_runtimes_per_project : ℕ
max_runtimes_per_project = 500

abbrev pub min_heartbeat_interval : ℕ
min_heartbeat_interval = 10 * second

abbrev pub runtime_offline_after : ℕ
runtime_offline_after = 45 * second

abbrev is_there {ℓ} : {A : Type ℓ} → Option A → Bool
is_there none = false
is_there (some _) = true

abbrev is_zero : ℕ → Bool
is_zero zero = true
is_zero (suc n) = false

-- The runtime's agent, or an actor who governs.
unfoldable pub owns_runtime : State → String → String → Bool
owns_runtime st actor agent_id = actor == agent_id || actor_elevated st actor

unfoldable pub check_runtime_registered :
    State → String → String → String → Bool → RuntimeRegistered → Result Payload
unfolding get owns_runtime
check_runtime_registered st actor typ id exists p = do
  reject_if (not (typ == "runtime.register")) "invalid runtime registration transition"
  reject_if (id == "" || p.agent_id == "") "runtime ID and agent ID are required"
  reject_if exists "runtime already exists"
  reject_if (leb max_runtimes_per_project (length st.runtimes)) "runtime count exceeds 500"
  target ← found (get p.agent_id st.agents) "active agent runtime owner is required"
  reject_if (not (target.status == "ACTIVE") || not (target.principal_type == "AGENT"))
      "active agent runtime owner is required"
  reject_if (not (owns_runtime st actor p.agent_id))
      "runtime owner, project owner, or orchestrator required"
  definition ←
      normalize_runtime_definition p.kind p.connector p.config_reference p.host_id p.max_concurrent
  ok (runtime_registered (record p { kind = definition.0; connector = definition.1 }))

unfoldable pub check_runtime_configured :
    State → String → String → String → AgentRuntime → Bool → RuntimeConfigured → Result Payload
unfolding owns_runtime
check_runtime_configured st actor typ id runtime exists p = do
  reject_if (not (typ == "runtime.configure")) "invalid runtime configuration transition"
  reject_if (not exists) "runtime not found"
  reject_if (not (owns_runtime st actor runtime.agent_id))
      "runtime owner, project owner, or orchestrator required"
  reject_if (not (runtime.status == "OFFLINE") && not (runtime.status == "DRAINING"))
      "runtime must be offline or draining before configuration"
  reject_if
      (not (is_empty runtime.active_invocations) || not (is_zero (runtime_invocation_load st id)))
      "runtime with active invocations cannot be configured"
  definition ←
      normalize_runtime_definition p.kind p.connector p.config_reference p.host_id p.max_concurrent
  ok (runtime_configured (record p { kind = definition.0; connector = definition.1 }))

-- The invocation runs on the runtime, for its agent.
unfoldable pub is_assigned : String → String → Option Invocation → Bool
is_assigned agent_id id none = false
is_assigned agent_id id (some i) = i.target == agent_id && i.runtime_id == id

unfoldable pub check_active_invocations :
    State → AgentRuntime → String → List String → List String → Result (Unit {0})
unfolding get has is_assigned
check_active_invocations st runtime id seen [] = ok tt
check_active_invocations st runtime id seen (x ∷ rest) =
    let later = check_active_invocations st runtime id (x ∷ seen) rest in
    if not (is_assigned runtime.agent_id id (get x st.invocations))
    then err "active invocation is not assigned to this runtime"
    else if has seen x
    then err "active invocation IDs must be unique"
    else later

-- `now.Sub(last) < interval`, where `last` may lie in the future
unfoldable pub too_soon : ℕ → ℕ → Bool
too_soon last now = ltb now (last + min_heartbeat_interval)

unfoldable pub check_runtime_heartbeat :
    State → String → String → AgentRuntime → Bool → RuntimeHeartbeat → ℕ → Result Payload
unfolding trim_space to_upper runtime_kind too_soon
check_runtime_heartbeat st actor id runtime exists p now = do
  let kind = runtime_kind runtime.kind runtime.connector
  reject_if (not exists || not (actor == runtime.agent_id)) "registered runtime owner required"
  reject_if (runtime.status == "REVOKED" || runtime.status == "DRAINING")
      "runtime cannot heartbeat while revoked or draining"
  reject_if
      (runtime.status == "ONLINE"
        && not (is_zero runtime.last_seen_at)
        && too_soon runtime.last_seen_at now)
      "runtime heartbeat interval must be at least 10s"
  let health = to_upper (trim_space p.health)
  reject_if (not (health == "HEALTHY") && not (health == "DEGRADED"))
      "runtime health must be HEALTHY or DEGRADED"
  reject_if (ltb runtime.max_concurrent (length p.active_invocations))
      "active invocations exceed runtime concurrency"
  reject_if (kind == "INTERACTIVE" && trim_space p.endpoint_id == "")
      "interactive runtime endpoint ID is required"
  reject_if (not (kind == "INTERACTIVE") && not (trim_space p.endpoint_id == ""))
      "worker runtime heartbeat must not contain an interactive endpoint ID"
  check_active_invocations st runtime id [] p.active_invocations
  ok (runtime_heartbeat (record p { health = health }))

unfoldable pub check_offline : AgentRuntime → RuntimeStatusChanged → Result (Unit {0})
unfolding trim_space runtime_kind
check_offline runtime p = do
  reject_if (runtime.status == "REVOKED") "revoked runtime cannot transition offline"
  reject_if
      (runtime_kind runtime.kind runtime.connector == "INTERACTIVE"
        && runtime.status == "ONLINE"
        && (trim_space p.endpoint_id == "" || not (p.endpoint_id == runtime.endpoint_id)))
      "interactive runtime offline transition must match the active endpoint"

-- The checks of the runtime's owner, then those of each type.
unfoldable pub check_status_change :
    State → String → String → AgentRuntime → RuntimeStatusChanged → Result (Unit {0})
unfolding owns_runtime check_offline
check_status_change st actor typ runtime p =
    if typ == "runtime.revoke"
    then (do
      reject_if (not (actor_elevated st actor)) "owner or orchestrator required to revoke a runtime"
      reject_if (runtime.status == "REVOKED") "runtime is already revoked")
    else if typ == "runtime.delete"
    then (do
      reject_if (not (owns_runtime st actor runtime.agent_id))
          "runtime owner, project owner, or orchestrator required to delete a runtime"
      reject_if (not (runtime.status == "REVOKED")) "runtime must be revoked before deletion")
    else (do
      reject_if (not (owns_runtime st actor runtime.agent_id))
          "runtime owner, project owner, or orchestrator required"
      if typ == "runtime.offline" then check_offline runtime p else (do
        reject_if
            (typ == "runtime.drain"
              && (runtime.status == "DRAINING" || runtime.status == "REVOKED"))
            "runtime cannot drain while draining or revoked"
        reject_if (typ == "runtime.resume" && not (runtime.status == "DRAINING"))
            "draining runtime required"))

unfoldable pub check_runtime_status_changed :
    State → String → String → AgentRuntime → Bool → RuntimeStatusChanged → Result Payload
unfolding check_status_change
check_runtime_status_changed st actor typ runtime exists p = do
  reject_if (not exists) "runtime not found"
  check_status_change st actor typ runtime p
  ok (runtime_status_changed p)

unfoldable pub switch_runtime :
    State → String → String → String → AgentRuntime → Bool → Payload → ℕ → Result Payload
switch_runtime st actor typ id runtime exists (runtime_registered p) now =
    check_runtime_registered st actor typ id exists p
switch_runtime st actor typ id runtime exists (runtime_configured p) now =
    check_runtime_configured st actor typ id runtime exists p
switch_runtime st actor typ id runtime exists (runtime_heartbeat p) now =
    check_runtime_heartbeat st actor id runtime exists p now
switch_runtime st actor typ id runtime exists (runtime_status_changed p) now =
    check_runtime_status_changed st actor typ runtime exists p
switch_runtime st actor typ id runtime exists payload now = err "invalid runtime payload"

unfoldable pub check_runtime : State → String → String → String → Payload → ℕ → Result Payload
unfolding get get_or switch_runtime
check_runtime st actor typ id payload now =
    switch_runtime st actor typ id (get_or zero_runtime id st.runtimes)
      (is_there (get id st.runtimes)) payload now

-- One runtime of RefreshRuntimePresence: a runtime that was not seen for long goes offline.
unfoldable pub refresh : ℕ → AgentRuntime → AgentRuntime
refresh now r =
    if r.status == "ONLINE"
      && not (is_zero r.last_seen_at)
      && ltb (r.last_seen_at + runtime_offline_after) now
    then record r {
      status = "OFFLINE";
      health = "UNKNOWN";
      endpoint_id = "";
      active_invocations = [];
      reason = "heartbeat expired";
    }
    else r

unfoldable pub refresh_all : ℕ → Map AgentRuntime → Map AgentRuntime
unfolding refresh
refresh_all now [] = []
refresh_all now ((id, r) ∷ rest) = (id, refresh now r) ∷ refresh_all now rest

unfoldable pub refresh_runtime_presence : State → ℕ → State
unfolding refresh_all
refresh_runtime_presence st now = record st { runtimes = refresh_all now st.runtimes }
