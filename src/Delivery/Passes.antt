-- ===== src/Delivery/Passes.antt =====
-- internal/daemon/connectors.go and internal/protocol/transitions.go: a selected runtime passes the
-- validator's guards on it.
use agent_comms.Base.{
  ◌≡◌, inl, inr, refl, arith, String, Bool, true, false, not, ◌&&◌, ◌||◌, ◌==◌, some, if◌then◌else◌,
  Bool-cases, eq_iff,
}
use text.Mathlib.TextPositions.{eq_refl}
use agent_comms.Base.Map.{get}
use agent_comms.Base.Text.{trim_space, to_upper}
use agent_comms.Model.Payloads.{InvocationDeliveryAttempted}
use agent_comms.Model.State.{State, Invocation, AgentRuntime}
use agent_comms.Protocol.Result.{ok}
use agent_comms.Protocol.Consumers.{
  runtime_kind, consumer_allows_kind, effective_invocation_consumer,
}
use agent_comms.Protocol.Invocations.Delivery.{check_delivery_runtime, resolve_endpoint}
use agent_comms.Service.Modes.{HasKind}
use agent_comms.Delivery.Attempts.{effective_runtime_kind}
use agent_comms.Delivery.Configs.{Dispatcher}
use agent_comms.Delivery.Select.{is_excluded, is_local_session}
use agent_comms.Delivery.Agreement.{consumer_mode_allows_runtime-consumer_allows_kind}
use agent_comms.Delivery.Selected.{IsFit}

-- A runtime as its registration leaves it.
pub record IsRegisteredRuntime (st : State) (runtime : AgentRuntime) : Type 0 where
  pub stored : get runtime.id st.runtimes ≡ some runtime
  pub named : (trim_space runtime.id == "") ≡ false
  pub kind : HasKind runtime
  pub plain : to_upper (trim_space runtime.connector) ≡ runtime.connector
  pub endpoint : (trim_space runtime.endpoint_id == "") ≡ not (runtime.kind == "INTERACTIVE")

pub kinds_agree :
    (runtime : AgentRuntime)
    → HasKind runtime
    → (runtime_kind runtime.kind runtime.connector ≡ runtime.kind)
      × (effective_runtime_kind runtime ≡ runtime.kind)
unfolding runtime_kind effective_runtime_kind
kinds_agree runtime (inl e) = (rw (e) refl, rw (e) refl)
kinds_agree runtime (inr e) = (rw (e) refl, rw (e) refl)

-- The guards on the runtime, by the tests that selected it.
pub record PassesRuntime (i : Invocation) (runtime : AgentRuntime) : Type 0 where
  pub own : (runtime.agent_id == i.target) ≡ true
  pub preferred :
      (not (i.preferred_runtime_id == "") && not (i.preferred_runtime_id == runtime.id)) ≡ false
  pub in_service : (runtime.status == "DRAINING" || runtime.status == "REVOKED") ≡ false
  pub online : (runtime.kind == "INTERACTIVE" && not (runtime.status == "ONLINE")) ≡ false
  pub notifies :
      (runtime.connector == "MANUAL" || runtime.connector == "MCP" || runtime.connector == "QUEUE")
      ≡ false
  pub allowed :
      consumer_allows_kind (effective_invocation_consumer i.consumer_mode) runtime.kind ≡ true

excluded_parts :
    (a b c e f : Bool)
    → (not a || b || c || e || f) ≡ false
    → (a ≡ true) × ((b || c) ≡ false) × (f ≡ false)
excluded_parts a b c e f h = ground arith

session_parts :
    (d : Dispatcher) (runtime : AgentRuntime)
    → is_local_session d runtime ≡ true
    → ((runtime.status == "ONLINE") ≡ true) × (runtime.connector ≡ "INTERACTIVE")
unfolding is_local_session
session_parts d runtime here =
    let (online, own) =
      parts (runtime.status == "ONLINE") (runtime.host_id == "") (d.host_id == "")
        (runtime.host_id == d.host_id) (runtime.connector == "INTERACTIVE") (d.project_root == "")
        here in
    (online, (eq_iff runtime.connector "INTERACTIVE").0 own)
  where
    parts :
        (a b c e f g : Bool)
        → not (not a || b || c || not e || not f || g) ≡ true
        → (a ≡ true) × (f ≡ true)
    parts a b c e f g h = ground arith

-- Whether or not the runtime is interactive, it is online if it has to be, and can be notified.
reach_parts :
    (d : Dispatcher) (i : Invocation) (runtime : AgentRuntime)
    → HasKind runtime
    → IsFit d i runtime
    → ((runtime.kind == "INTERACTIVE" && not (runtime.status == "ONLINE")) ≡ false)
      × ((runtime.connector == "MANUAL"
            || runtime.connector == "MCP"
            || runtime.connector == "QUEUE")
          ≡ false)
reach_parts d i runtime kind fit = elim fit.reachable [
  | inl (live, here) ↦
      let (online, connector) = session_parts d runtime here in
      (rw (online) (never (runtime.kind == "INTERACTIVE")), rw (connector) refl)
  | inr (worker, notified) ↦
      let other : (runtime.kind == "INTERACTIVE") ≡ false =
        rw (← (kinds_agree runtime kind).1) worker in
      (rw (other) refl, opened notified)
]
  where
    never : (b : Bool) → (b && not true) ≡ false
    never b = ground arith

    opened : {b : Bool} → not b ≡ true → b ≡ false
    opened {b} h = ground arith

pub IsFit-PassesRuntime :
    (d : Dispatcher) (i : Invocation) (runtime : AgentRuntime)
    → HasKind runtime
    → IsFit d i runtime
    → PassesRuntime i runtime
unfolding is_excluded
IsFit-PassesRuntime d i runtime kind fit =
    let (own, in_service, preferred) =
      excluded_parts (runtime.agent_id == i.target) (runtime.status == "DRAINING")
        (runtime.status == "REVOKED") _ _ fit.kept in
    let (online, notifies) = reach_parts d i runtime kind fit in
    record {
      own = own;
      preferred = preferred;
      in_service = in_service;
      online = online;
      notifies = notifies;
      allowed = rw (← (kinds_agree runtime kind).1) (
          consumer_mode_allows_runtime-consumer_allows_kind i.consumer_mode
            (effective_runtime_kind runtime) fit.allowed);
    }

pub check_delivery_runtime-PassesRuntime :
    (i : Invocation) (runtime : AgentRuntime)
    → HasKind runtime
    → PassesRuntime i runtime
    → check_delivery_runtime i runtime runtime.id ≡ ok tt
unfolding check_delivery_runtime
check_delivery_runtime-PassesRuntime i runtime kind passes =
    rw ((kinds_agree runtime kind).0) rw (passes.own) rw (passes.allowed) rw (passes.preferred) rw
      (passes.in_service) rw (passes.online) refl

same_either_way : {A : Type 0} (b : Bool) (x : A) → (if b then x else x) ≡ x
same_either_way true x = refl
same_either_way false x = refl

-- The attempt that the dispatcher asks for.
abbrev pub asked : AgentRuntime → String → InvocationDeliveryAttempted
asked runtime delivery_id = record {
  delivery_id = delivery_id;
  runtime_id = runtime.id;
  transport = runtime.connector;
  host_id = runtime.host_id;
  endpoint_id = runtime.endpoint_id;
  attempt = 0;
  manual = false;
  attempt_until = 0;
}

pub resolve_endpoint-asked :
    (st : State) (i : Invocation) (runtime : AgentRuntime) (delivery_id : String)
    → IsRegisteredRuntime st runtime
    → PassesRuntime i runtime
    → resolve_endpoint runtime (asked runtime delivery_id)
      ≡ ok (runtime.connector, runtime.host_id, runtime.endpoint_id)
unfolding resolve_endpoint
resolve_endpoint-asked st i runtime delivery_id known passes =
    rw ((kinds_agree runtime known.kind).0) rw (known.plain) rw
      (same_either_way (runtime.connector == "") runtime.connector) rw (eq_refl runtime.connector)
      rw (passes.notifies) rw (same_either_way (runtime.host_id == "") runtime.host_id) rw
      (eq_refl runtime.host_id) rw (known.endpoint) rw
      (same_either_way (runtime.kind == "INTERACTIVE" && runtime.endpoint_id == "")
        runtime.endpoint_id)
      rw (eq_refl runtime.endpoint_id)
      (elim (Bool-cases (runtime.kind == "INTERACTIVE")) [
        | inl live ↦ rw (live) refl
        | inr worker ↦ rw (worker) refl
      ])
