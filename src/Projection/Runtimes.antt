-- ===== src/Projection/Runtimes.antt =====
-- internal/projection/apply.go: the cases of runtimes and invocation policies.
use agent_comms.Base.{zero, suc, String, true, ◌||◌, ◌==◌, none, some, [], is_empty, if◌then◌else◌}
use agent_comms.Base.Map.{get, get_or, put, delete}
use agent_comms.Model.Payloads.{
  RuntimeRegistered, RuntimeConfigured, RuntimeHeartbeat, RuntimeStatusChanged,
  InvocationPolicyUpdated,
}
use agent_comms.Model.State.{State, AgentRuntime, InvocationPolicy, EntityClock, Event}
use agent_comms.Model.Zero.{zero_runtime, zero_policy}
use agent_comms.Protocol.Consumers.{runtime_kind, all_consumer_modes}
use agent_comms.Projection.Invocations.{effective_consumer_mode}

unfoldable pub set_runtime : State → String → (AgentRuntime → AgentRuntime) → State
unfolding get_or put
set_runtime s id f = record s {
  runtimes = put id (f (get_or zero_runtime id s.runtimes)) s.runtimes;
}

abbrev clock_of : Event → EntityClock
clock_of e = record {
  created_at = e.time;
  updated_at = e.time;
  created_sequence = e.sequence;
  updated_sequence = e.sequence;
}

-- The policy that the first interactive runtime of an agent brings along.
abbrev automatic_policy : Event → String → InvocationPolicy
automatic_policy e agent_id = record zero_policy {
  agent_id = agent_id;
  mode = "AUTOMATIC";
  default_consumer_mode = "EITHER";
  allowed_consumer_modes = all_consumer_modes;
  require_human_for_sensitive = true;
  updated_by = e.actor;
  clock = clock_of e;
}

unfoldable pub seed_policy : State → Event → String → String → String → State
unfolding get put
seed_policy s e agent_id kind connector = elim (get agent_id s.policies) [
  | some _ ↦ s
  | none ↦
      if kind == "INTERACTIVE" || connector == "INTERACTIVE"
      then record s { policies = put agent_id (automatic_policy e agent_id) s.policies }
      else s
]

unfoldable pub apply_runtime_registered : State → Event → RuntimeRegistered → State
unfolding put runtime_kind seed_policy
apply_runtime_registered s e p =
    let kind = runtime_kind p.kind p.connector in
    let registered = record s {
      runtimes =
          put e.entity_id
            (record zero_runtime {
              id = e.entity_id;
              agent_id = p.agent_id;
              kind = kind;
              connector = p.connector;
              config_reference = p.config_reference;
              host_id = p.host_id;
              status = "OFFLINE";
              health = "UNKNOWN";
              max_concurrent = p.max_concurrent;
              scopes = p.scopes;
              capabilities = p.capabilities;
              registered_at = e.time;
              last_changed_by = e.actor;
            })
            s.runtimes;
    } in
    seed_policy registered e p.agent_id kind p.connector

unfoldable pub apply_runtime_configured : State → Event → RuntimeConfigured → State
unfolding set_runtime runtime_kind
apply_runtime_configured s e p = set_runtime s e.entity_id (λ r. record r {
  kind = runtime_kind p.kind p.connector;
  connector = p.connector;
  config_reference = p.config_reference;
  host_id = p.host_id;
  endpoint_id = "";
  max_concurrent = p.max_concurrent;
  scopes = p.scopes;
  capabilities = p.capabilities;
  status = "OFFLINE";
  health = "UNKNOWN";
  reason = "";
  last_changed_by = e.actor;
})

unfoldable pub apply_runtime_heartbeat : State → Event → RuntimeHeartbeat → State
unfolding set_runtime
apply_runtime_heartbeat s e p = set_runtime s e.entity_id (λ r. record r {
  status = "ONLINE";
  health = p.health;
  endpoint_id = p.endpoint_id;
  active_invocations = p.active_invocations;
  last_seen_at = e.time;
  last_changed_by = e.actor;
  reason = "";
})

-- The inner switch on the type, and what follows it.
unfoldable pub move_runtime : Event → RuntimeStatusChanged → AgentRuntime → AgentRuntime
move_runtime e p r =
    let moved : AgentRuntime =
      if e.typ == "runtime.offline"
      then record r {
        status = "OFFLINE";
        health = "UNKNOWN";
        endpoint_id = "";
        active_invocations = [];
      }
      else if e.typ == "runtime.drain"
      then record r { status = "DRAINING" }
      else if e.typ == "runtime.resume"
      then record r { status = "OFFLINE" }
      else if e.typ == "runtime.revoke"
      then record r { status = "REVOKED" }
      else r in
    record moved { reason = p.reason; last_changed_by = e.actor }

unfoldable pub apply_runtime_moved : State → Event → RuntimeStatusChanged → State
unfolding set_runtime move_runtime
apply_runtime_moved s e p = set_runtime s e.entity_id (move_runtime e p)

unfoldable pub apply_runtime_deleted : State → Event → State
unfolding delete
apply_runtime_deleted s e = record s { runtimes = delete e.entity_id s.runtimes }

-- The creation time and sequence of an entry that is written again.
unfoldable pub renewed_clock : EntityClock → Event → EntityClock
renewed_clock c e = elim c.created_at [
  | zero ↦ clock_of e
  | suc t ↦ record {
    created_at = suc t;
    created_sequence = c.created_sequence;
    updated_at = e.time;
    updated_sequence = e.sequence;
  }
]

unfoldable pub apply_policy_updated : State → Event → InvocationPolicyUpdated → State
unfolding get_or put renewed_clock effective_consumer_mode
apply_policy_updated s e p = record s {
  policies =
      put e.entity_id
        (record {
          agent_id = e.entity_id;
          mode = p.mode;
          trusted_actors = p.trusted_actors;
          allowed_scopes = p.allowed_scopes;
          default_consumer_mode = effective_consumer_mode p.default_consumer_mode;
          allowed_consumer_modes =
              if is_empty p.allowed_consumer_modes
              then all_consumer_modes
              else p.allowed_consumer_modes;
          preferred_interactive_runtime_id = p.preferred_interactive_runtime_id;
          require_human_for_sensitive = p.require_human_for_sensitive;
          updated_by = e.actor;
          clock = renewed_clock (get_or zero_policy e.entity_id s.policies).clock e;
        })
        s.policies;
}
