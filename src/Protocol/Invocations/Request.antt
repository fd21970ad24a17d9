-- ===== src/Protocol/Invocations/Request.antt =====
-- internal/protocol/transitions.go: a requested invocation, its normal form and its checks.
use Prim.Native.String.{◌++◌, len}
use agent_comms.Base.{
  ℕ, ◌+◌, ◌*◌, String, Bool, true, false, not, ◌&&◌, ◌||◌, ◌==◌, Option, none, some, List, ltb,
  if◌then◌else◌, is_empty,
}
use agent_comms.Base.Map.{get, get_or}
use agent_comms.Base.Text.{trim_space, to_upper, has}
use agent_comms.Base.Duration.{hour}
use agent_comms.Model.Payloads.{Payload, InvocationRequested, invocation_requested}
use agent_comms.Model.State.{State, Agent, InvocationPolicy}
use agent_comms.Model.Zero.{zero_agent, zero_policy}
use agent_comms.Protocol.Result.{Platform, Result, ok, err, ◌>>=◌, ◌>>◌, reject_if, found}
use agent_comms.Protocol.Scopes.{scope_allows}
use agent_comms.Protocol.Standing.{actor_elevated}
use agent_comms.Protocol.Approvals.{has_bound_approval, approval_subject_digest}
use agent_comms.Protocol.Consumers.{
  runtime_kind, valid_consumer_mode, consumer_allows_kind, effective_consumer_policy,
  contains_consumer_mode,
}

abbrev pub max_invocation_bytes : ℕ
max_invocation_bytes = 16 * 1024

abbrev pub max_invocation_ttl : ℕ
max_invocation_ttl = 7 * 24 * hour

-- The scopes of the related task, where the request has none.
default_scopes : State → InvocationRequested → List String
unfolding get
default_scopes st p =
    if not (p.task_id == "") && is_empty p.scopes
    then elim (get p.task_id st.tasks) [ none ↦ p.scopes | some task ↦ task.resources ]
    else p.scopes

default_priority : String → String
unfolding trim_space to_upper
default_priority raw =
    let priority = to_upper (trim_space raw) in if priority == "" then "NORMAL" else priority

default_consumer : InvocationPolicy → String → String
unfolding trim_space to_upper effective_consumer_policy
default_consumer policy mode =
    to_upper (trim_space (if mode == "" then (effective_consumer_policy policy).0 else mode))

default_runtime : InvocationPolicy → String → String → String
default_runtime policy mode runtime_id =
    if runtime_id == "" && not (mode == "WORKER_ONLY")
    then policy.preferred_interactive_runtime_id
    else runtime_id

unfoldable pub normalize_invocation_approval_subject :
    State → InvocationRequested → InvocationRequested
unfolding get_or default_scopes default_priority default_consumer default_runtime
normalize_invocation_approval_subject st p =
    let policy = get_or zero_policy p.target st.policies in
    let mode = default_consumer policy p.consumer_mode in
    record p {
      scopes = default_scopes st p;
      priority = default_priority p.priority;
      consumer_mode = mode;
      preferred_runtime_id = default_runtime policy mode p.preferred_runtime_id;
    }

unfoldable pub invocation_is_sensitive : State → InvocationRequested → Bool
unfolding get
invocation_is_sensitive st p =
    if p.priority == "URGENT"
    then true
    else if p.task_id == ""
    then false
    else elim (get p.task_id st.tasks) [
      | none ↦ false
      | some task ↦ not (task.risk == "") && not (task.risk == "ROUTINE")
    ]

-- An active agent, which alone may be a target.
unfoldable pub is_active_agent : Agent → Bool
is_active_agent a = a.status == "ACTIVE" && a.principal_type == "AGENT"

-- The policy's mode, for an actor who governs nothing; MANUAL is enforced at the end.
unfoldable pub check_mode : Option InvocationPolicy → String → Result (Unit {0})
unfolding has
check_mode none actor = ok tt
check_mode (some policy) actor =
    if policy.mode == "MANUAL"
    then ok tt
    else if policy.mode == "DISABLED"
    then err "target invocation policy is disabled"
    else reject_if (policy.mode == "TRUSTED" && not (has policy.trusted_actors actor))
        "requester is not trusted by target invocation policy"

unfoldable pub check_deadline : Option ℕ → ℕ → Result (Unit {0})
check_deadline none now = ok tt
check_deadline (some d) now = do
  reject_if (not (ltb now d)) "invocation deadline must be in the future"
  reject_if (ltb (now + max_invocation_ttl) d) "invocation deadline exceeds 168h0m0s"

unfoldable pub check_related_message : State → InvocationRequested → Result (Unit {0})
unfolding get has
check_related_message st p = if p.message_id == "" then ok tt else (do
  message ← found (get p.message_id st.messages) "related message not found"
  reject_if (not (has message.to p.target))
      "related message is not addressed to the invocation target")

unfoldable pub check_preferred_runtime : State → InvocationRequested → Result (Unit {0})
unfolding get
check_preferred_runtime st p = if p.preferred_runtime_id == "" then ok tt else (do
  preferred ←
      found (get p.preferred_runtime_id st.runtimes)
        "preferred runtime must belong to the target and match the invocation consumer mode"
  reject_if
      (not (preferred.agent_id == p.target)
        || not (
            consumer_allows_kind p.consumer_mode (runtime_kind preferred.kind preferred.connector)))
      "preferred runtime must belong to the target and match the invocation consumer mode"
  reject_if (preferred.status == "REVOKED") "preferred runtime is revoked")

-- No policy is as MANUAL.
unfoldable pub is_manual : Option InvocationPolicy → Bool
is_manual none = true
is_manual (some policy) = policy.mode == "MANUAL"

-- The approvals that an actor who governs nothing needs.
unfoldable pub check_invocation_approval :
    State → Agent → String → String → InvocationRequested → ℕ → Result (Unit {0})
unfolding get get_or is_manual
check_invocation_approval st requester id digest p now = do
  let sensitive = has_bound_approval st ("invocation-sensitive:" ++ id) digest "HUMAN" now
  reject_if
      (is_manual (get p.target st.policies)
        && not (has_bound_approval st ("invocation:" ++ id) digest "" now)
        && not sensitive)
      "approved invocation is required by target policy"
  reject_if
      ((get_or zero_policy p.target st.policies).require_human_for_sensitive
        && invocation_is_sensitive st p
        && not (requester.principal_type == "HUMAN")
        && not sensitive)
      "human approval is required for sensitive invocation"

-- The checks of the normalised request on its content, scopes, priority and deadline.
unfoldable pub check_request_content :
    State → String → Agent → Agent → InvocationRequested → ℕ → Result (Unit {0})
unfolding get check_deadline
check_request_content st actor requester target p now = do
  reject_if (ltb max_invocation_bytes (len p.instruction + len p.expected_result))
      "invocation content exceeds 16384 bytes"
  if p.task_id == ""
      then ok tt
      else (do _ ← found (get p.task_id st.tasks) "related task not found"; ok tt)
  reject_if
      (not (is_empty p.scopes)
        && not (scope_allows requester.scopes p.scopes)
        && not (actor_elevated st actor))
      "invocation scopes exceed requester scopes"
  reject_if (not (is_empty p.scopes) && not (scope_allows target.scopes p.scopes))
      "invocation scopes exceed target scopes"
  reject_if
      (not (p.priority == "LOW")
        && not (p.priority == "NORMAL")
        && not (p.priority == "HIGH")
        && not (p.priority == "URGENT"))
      "invocation priority must be LOW, NORMAL, HIGH, or URGENT"
  check_deadline p.deadline now

-- The checks of the normalised request against the target's policy.
unfoldable pub check_request_policy : State → InvocationRequested → Result (Unit {0})
unfolding get_or
check_request_policy st p = do
  let policy = get_or zero_policy p.target st.policies
  reject_if
      (not (is_empty policy.allowed_scopes) && not (scope_allows policy.allowed_scopes p.scopes))
      "invocation scopes exceed target policy"
  reject_if (not (valid_consumer_mode p.consumer_mode))
      "invocation consumer mode must be INTERACTIVE_ONLY, WORKER_ONLY, or EITHER"
  reject_if (not (contains_consumer_mode (effective_consumer_policy policy).1 p.consumer_mode))
      "invocation consumer mode is not allowed by target policy"
  check_preferred_runtime st p

unfoldable pub check_invocation_requested :
    Platform → State → String → String → String → Bool → InvocationRequested → ℕ → Result Payload
unfolding get get_or trim_space is_active_agent
check_invocation_requested pf st actor typ id exists raw now = do
  reject_if (not (typ == "invocation.request")) "invalid invocation request transition"
  reject_if (id == "" || trim_space raw.target == "" || trim_space raw.instruction == "")
      "invocation ID, target, and instruction are required"
  reject_if exists "invocation already exists"
  target ← found (get raw.target st.agents) "active agent invocation target is required"
  reject_if (not (is_active_agent target)) "active agent invocation target is required"
  let p = normalize_invocation_approval_subject st raw
  let digest = approval_subject_digest pf actor typ id (invocation_requested p)
  let requester = get_or zero_agent actor st.agents
  if actor_elevated st actor then ok tt else check_mode (get p.target st.policies) actor
  check_request_content st actor requester target p now
  check_related_message st p
  check_request_policy st p
  if actor_elevated st actor then ok tt else check_invocation_approval st requester id digest p now
  ok (invocation_requested p)
