-- ===== src/Protocol/Invocations/Work.antt =====
-- internal/protocol/transitions.go: claim, progress and end of an invocation.
use agent_comms.Base.{
  ℕ, zero, suc, ◌+◌, ◌*◌, String, Bool, true, false, not, ◌&&◌, ◌||◌, ◌==◌, Option, none, some, ltb,
  leb, if◌then◌else◌,
}
use agent_comms.Base.Map.{get}
use agent_comms.Base.Text.{trim_space}
use agent_comms.Base.Duration.{minute, hour}
use agent_comms.Model.Payloads.{
  Payload, InvocationClaimed, InvocationProgress, InvocationWaiting, InvocationCompleted,
  InvocationRejected, invocation_claimed, invocation_progress, invocation_waiting,
  invocation_completed, invocation_rejected,
}
use agent_comms.Model.State.{State, Invocation, AgentRuntime}
use agent_comms.Protocol.Result.{Result, ok, ◌>>=◌, ◌>>◌, reject_if, found}
use agent_comms.Protocol.Standing.{actor_elevated}
use agent_comms.Protocol.Approvals.{has_expired}
use agent_comms.Protocol.Consumers.{
  runtime_kind, effective_invocation_consumer, consumer_allows_kind, runtime_invocation_load,
}

abbrev pub default_claim_lease : ℕ
default_claim_lease = 15 * minute

abbrev pub max_claim_lease : ℕ
max_claim_lease = hour

abbrev is_zero : ℕ → Bool
is_zero zero = true
is_zero (suc n) = false

-- The runtime can take the claim.
unfoldable pub check_claim_runtime : State → Invocation → AgentRuntime → String → Result (Unit {0})
check_claim_runtime st i runtime runtime_id = do
  reject_if (not (runtime.agent_id == i.target))
      "claiming runtime must be registered to the invocation target"
  reject_if (not (runtime.status == "ONLINE") || runtime.health == "UNKNOWN")
      "claiming runtime must be online"
  reject_if (leb runtime.max_concurrent (runtime_invocation_load st runtime_id))
      "claiming runtime has no available capacity"
  reject_if
      (not (
        consumer_allows_kind (effective_invocation_consumer i.consumer_mode)
          (runtime_kind runtime.kind runtime.connector)))
      "claiming runtime does not match the invocation consumer mode"
  reject_if (not (i.preferred_runtime_id == "") && not (i.preferred_runtime_id == runtime_id))
      "claiming runtime does not match the preferred runtime"

unfoldable pub check_invocation_claimed :
    State → String → Invocation → Bool → InvocationClaimed → ℕ → Result Payload
unfolding get trim_space has_expired check_claim_runtime
check_invocation_claimed st actor i exists p now = do
  reject_if (not exists) "invocation not found"
  reject_if (not (actor == i.target)) "invocation target required"
  reject_if (not (i.status == "PENDING") && not (i.status == "NOTIFIED"))
      "invocation is no longer claimable"
  reject_if (has_expired i.deadline now) "invocation deadline has passed"
  reject_if (trim_space p.runtime_id == "") "runtime ID is required"
  runtime ←
      found (get p.runtime_id st.runtimes)
        "claiming runtime must be registered to the invocation target"
  check_claim_runtime st i runtime p.runtime_id
  let until = if is_zero p.claim_until then now + default_claim_lease else p.claim_until
  reject_if (not (ltb now until) || ltb (now + max_claim_lease) until)
      "claim lease must be within 1h0m0s"
  ok (invocation_claimed (record p { claim_until = until }))

unfoldable pub check_invocation_progress :
    String → String → Invocation → Bool → InvocationProgress → Result Payload
check_invocation_progress actor typ i exists p = do
  reject_if (not exists) "invocation not found"
  reject_if (not (actor == i.target)) "invocation target required"
  reject_if (typ == "invocation.start" && not (i.status == "CLAIMED")) "claimed invocation required"
  reject_if (typ == "invocation.resume" && not (i.status == "WAITING"))
      "waiting invocation required"
  ok (invocation_progress p)

unfoldable pub check_invocation_waiting :
    String → Invocation → Bool → InvocationWaiting → ℕ → Result Payload
unfolding trim_space has_expired
check_invocation_waiting actor i exists p now = do
  reject_if (not exists || not (actor == i.target)) "active invocation target required"
  reject_if (not (i.status == "RUNNING")) "running invocation required"
  reject_if (trim_space p.reason == "") "waiting reason is required"
  reject_if (has_expired p.next_attempt_at now) "next attempt must be in the future"
  ok (invocation_waiting p)

-- The result message is there, and the actor wrote it.
unfoldable pub wrote_message : State → String → String → Bool
unfolding get
wrote_message st actor id = elim (get id st.messages) [ none ↦ false | some m ↦ m.from == actor ]

unfoldable pub check_invocation_completed :
    State → String → Invocation → Bool → InvocationCompleted → Result Payload
unfolding trim_space wrote_message
check_invocation_completed st actor i exists p = do
  reject_if (not exists || not (actor == i.target)) "active invocation target required"
  reject_if (not (i.status == "RUNNING") && not (i.status == "WAITING"))
      "running or waiting invocation required"
  reject_if (trim_space p.summary == "") "completion summary is required"
  reject_if (not (p.result_message_id == "") && not (wrote_message st actor p.result_message_id))
      "result message authored by the invocation target is required"
  ok (invocation_completed p)

-- `deadline == nil || deadline.After(now)`
unfoldable pub deadline_ahead : Option ℕ → ℕ → Bool
deadline_ahead none now = true
deadline_ahead (some d) now = ltb now d

-- An invocation that is over.
unfoldable pub is_over : String → Bool
is_over status =
    status == "COMPLETED"
    || status == "REJECTED"
    || status == "EXPIRED"
    || status == "CANCELLED"
    || status == "DEAD_LETTER"

-- The three types that carry this payload.
unfoldable pub check_ending : State → String → String → Invocation → ℕ → Result (Unit {0})
unfolding deadline_ahead is_over
check_ending st actor typ i now =
    if typ == "invocation.reject"
    then reject_if
        (not (actor == i.target)
          || (not (i.status == "PENDING")
              && not (i.status == "NOTIFIED")
              && not (i.status == "CLAIMED")))
        "open invocation target required"
    else if typ == "invocation.expire"
    then (do
      reject_if (not (actor == i.requested_by) && not (actor_elevated st actor))
          "invocation requester, owner, or orchestrator required"
      reject_if (deadline_ahead i.deadline now) "expired invocation deadline is required")
    else if typ == "invocation.cancel"
    then (do
      reject_if (not (actor == i.requested_by) && not (actor_elevated st actor))
          "invocation requester, owner, or orchestrator required"
      reject_if (is_over i.status) "cannot cancel invocation that is over")
    else ok tt

unfoldable pub check_invocation_rejected :
    State → String → String → Invocation → Bool → InvocationRejected → ℕ → Result Payload
unfolding trim_space check_ending
check_invocation_rejected st actor typ i exists p now = do
  reject_if (not exists) "invocation not found"
  reject_if (trim_space p.reason == "") "rejection or expiry reason is required"
  check_ending st actor typ i now
  ok (invocation_rejected p)
