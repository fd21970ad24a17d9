-- ===== src/Projection/Invocations.antt =====
-- internal/projection/apply.go: the cases of invocations and deliveries.
use agent_comms.Base.{ℕ, String, Bool, ◌&&◌, ◌||◌, ◌==◌, Option, none, some, any, if◌then◌else◌}
use agent_comms.Base.Map.{get, get_or, put}
use agent_comms.Base.Text.{trim_space, to_upper}
use agent_comms.Model.Payloads.{
  InvocationRequested, InvocationDeliveryAttempted, InvocationNotified, InvocationClaimed,
  InvocationProgress, InvocationWaiting, InvocationCompleted, InvocationRejected,
  InvocationDeliveryFailed,
}
use agent_comms.Model.State.{State, Invocation, InvocationDelivery, Event}
use agent_comms.Model.Zero.{zero_clock, zero_invocation, zero_delivery}

unfoldable pub set_invocation : State → String → (Invocation → Invocation) → State
unfolding get_or put
set_invocation s id f = record s {
  invocations = put id (f (get_or zero_invocation id s.invocations)) s.invocations;
}

unfoldable pub effective_consumer_mode : String → String
effective_consumer_mode mode =
    if mode == "INTERACTIVE_ONLY" || mode == "WORKER_ONLY" || mode == "EITHER"
    then mode
    else "EITHER"

unfoldable pub or_normal : String → String
or_normal priority = if priority == "" then "NORMAL" else priority

unfoldable pub apply_invocation_requested : State → Event → InvocationRequested → State
unfolding put effective_consumer_mode or_normal
apply_invocation_requested s e p = record s {
  invocations =
      put e.entity_id
        (record zero_invocation {
          id = e.entity_id;
          requested_by = e.actor;
          target = p.target;
          message_id = p.message_id;
          task_id = p.task_id;
          instruction = p.instruction;
          expected_result = p.expected_result;
          scopes = p.scopes;
          priority = or_normal (to_upper (trim_space p.priority));
          consumer_mode = effective_consumer_mode p.consumer_mode;
          preferred_runtime_id = p.preferred_runtime_id;
          status = "PENDING";
          clock = record zero_clock { created_at = e.time };
          deadline = p.deadline;
        })
        s.invocations;
}

unfoldable pub apply_invocation_delivery_attempted :
    State → Event → InvocationDeliveryAttempted → State
unfolding put
apply_invocation_delivery_attempted s e p = record s {
  deliveries =
      put p.delivery_id
        (record zero_delivery {
          id = p.delivery_id;
          invocation_id = e.entity_id;
          runtime_id = p.runtime_id;
          transport = p.transport;
          host_id = p.host_id;
          endpoint_id = p.endpoint_id;
          attempt = p.attempt;
          manual = p.manual;
          status = "ATTEMPTED";
          attempted_at = some e.time;
          attempt_until = some p.attempt_until;
        })
        s.deliveries;
}

unfoldable pub notify : Invocation → Invocation
notify i = if i.status == "PENDING" then record i { status = "NOTIFIED" } else i

-- A delivery that was attempted succeeds; one of an old history is made by the event.
unfoldable pub notified_delivery :
    Event → InvocationNotified → Option InvocationDelivery → InvocationDelivery
notified_delivery e p none = record zero_delivery {
  id = p.delivery_id;
  invocation_id = e.entity_id;
  runtime_id = p.runtime_id;
  attempt = p.attempt;
  status = "NOTIFIED";
  transport = p.transport;
  endpoint_id = p.endpoint_id;
  evidence = p.evidence;
  notified_at = some e.time;
}
notified_delivery e p (some d) = record d {
  status = "SUCCEEDED";
  runtime_id = p.runtime_id;
  transport = p.transport;
  endpoint_id = p.endpoint_id;
  evidence = p.evidence;
  notified_at = some e.time;
}

unfoldable pub apply_invocation_notified : State → Event → InvocationNotified → State
unfolding set_invocation notify notified_delivery get put
apply_invocation_notified s e p =
    let notified = set_invocation s e.entity_id notify in
    record notified {
      deliveries =
          put p.delivery_id (notified_delivery e p (get p.delivery_id s.deliveries)) s.deliveries;
    }

unfoldable pub apply_invocation_claimed : State → Event → InvocationClaimed → State
unfolding set_invocation
apply_invocation_claimed s e p = set_invocation s e.entity_id (λ i. record i {
  status = "CLAIMED";
  claimed_by = e.actor;
  runtime_id = p.runtime_id;
  claimed_at = some e.time;
  claim_until = some p.claim_until;
})

abbrev or_now : Option ℕ → ℕ → Option ℕ
or_now none now = some now
or_now (some t) now = some t

unfoldable pub apply_invocation_progress : State → Event → InvocationProgress → State
unfolding set_invocation
apply_invocation_progress s e p = set_invocation s e.entity_id (λ i. record i {
  status = "RUNNING";
  started_at = or_now i.started_at e.time;
  summary = p.summary;
  reason = "";
  next_attempt_at = none;
})

unfoldable pub apply_invocation_waiting : State → Event → InvocationWaiting → State
unfolding set_invocation
apply_invocation_waiting s e p =
    set_invocation s e.entity_id
      (λ i. record i { status = "WAITING"; reason = p.reason; next_attempt_at = p.next_attempt_at })

unfoldable pub apply_invocation_completed : State → Event → InvocationCompleted → State
unfolding set_invocation
apply_invocation_completed s e p = set_invocation s e.entity_id (λ i. record i {
  status = "COMPLETED";
  completed_at = some e.time;
  result_message_id = p.result_message_id;
  summary = p.summary;
})

unfoldable pub ended_status : String → String
ended_status typ =
    if typ == "invocation.expire"
    then "EXPIRED"
    else if typ == "invocation.cancel"
    then "CANCELLED"
    else "REJECTED"

unfoldable pub apply_invocation_rejected : State → Event → InvocationRejected → State
unfolding set_invocation ended_status
apply_invocation_rejected s e p =
    set_invocation s e.entity_id
      (λ i. record i { status = ended_status e.typ; completed_at = some e.time; reason = p.reason })

unfoldable pub has_successful_delivery : State → String → Bool
unfolding any
has_successful_delivery s invocation_id =
    any
      (λ entry.
        entry.1.invocation_id == invocation_id
        && (entry.1.status == "SUCCEEDED" || entry.1.status == "NOTIFIED"))
      s.deliveries

unfoldable pub reopen : State → String → Invocation → Invocation
unfolding has_successful_delivery
reopen s id i =
    if i.status == "PENDING" || i.status == "NOTIFIED"
    then record i { status = if has_successful_delivery s id then "NOTIFIED" else "PENDING" }
    else i

unfoldable pub apply_invocation_delivery_failed : State → Event → InvocationDeliveryFailed → State
unfolding set_invocation reopen get_or put
apply_invocation_delivery_failed s e p =
    let reopened = set_invocation s e.entity_id (reopen s e.entity_id) in
    record reopened {
      deliveries =
          put p.delivery_id
            (record (get_or zero_delivery p.delivery_id s.deliveries) {
              status = if p.final then "EXHAUSTED" else "FAILED";
              failed_at = some e.time;
              next_retry_at = p.next_retry;
              error = p.error;
            })
            s.deliveries;
    }
