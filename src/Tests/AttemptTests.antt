-- ===== src/Tests/AttemptTests.antt =====
-- The second attempt to deliver an invocation.
use agent_comms.Base.{◌<◌, ◌≡◌, refl, String, true, false, ◌==◌, some, [], ◌∷◌}
use agent_comms.Base.Map.{get}
use agent_comms.Model.Payloads.{Payload, InvocationDeliveryAttempted, invocation_delivery_attempted}
use agent_comms.Model.State.{State, Invocation, InvocationDelivery, AgentRuntime}
use agent_comms.Model.Zero.{zero_invocation, zero_runtime, zero_delivery}
use agent_comms.Protocol.Result.{Result, ok, err}
use agent_comms.Protocol.Consumers.{automatic_delivery_attempts}
use agent_comms.Protocol.Invocations.Delivery.{check_invocation_delivery_attempted}
use agent_comms.Invocations.Attempts.{attempt_is_fresh, IsBehind}
use agent_comms.Tests.Fixtures.{project, run}

abbrev pending : Invocation
pending = record zero_invocation {
  id = "i1";
  requested_by = "ana";
  target = "claude-a";
  consumer_mode = "EITHER";
  status = "PENDING";
}

abbrev host : AgentRuntime
host = record zero_runtime {
  id = "r1";
  agent_id = "claude-a";
  kind = "WORKER";
  connector = "WEBHOOK";
  status = "ONLINE";
  health = "HEALTHY";
  max_concurrent = 1;
}

abbrev failed : InvocationDelivery
failed = record zero_delivery {
  id = "d1";
  invocation_id = "i1";
  runtime_id = "r1";
  attempt = 1;
  status = "FAILED";
}

abbrev retrying : State
retrying = record project {
  invocations = ("i1", pending) ∷ [];
  runtimes = ("r1", host) ∷ [];
  deliveries = ("d1", failed) ∷ [];
}

abbrev second : InvocationDeliveryAttempted
second = record {
  delivery_id = "d2";
  runtime_id = "r1";
  transport = "WEBHOOK";
  host_id = "";
  endpoint_id = "";
  attempt = 0;
  manual = false;
  attempt_until = 0;
}

abbrev payload_of : Result Payload → Payload
payload_of (ok q) = q
payload_of (err message) = invocation_delivery_attempted second

abbrev numbered : Payload
unfolding run
numbered =
    payload_of (check_invocation_delivery_attempted retrying "ana" "i1" pending true second 1000)

second_accepted :
    check_invocation_delivery_attempted retrying "ana" "i1" pending true second 1000 ≡ ok numbered
unfolding run
second_accepted = refl

attempt_is_fresh_example :
    (body : InvocationDeliveryAttempted) × (numbered ≡ invocation_delivery_attempted body)
    × (body.runtime_id ≡ second.runtime_id)
    × (second.manual ≡ false → automatic_delivery_attempts retrying "i1" < 10)
    × ((k : String) (d : InvocationDelivery)
        → get k retrying.deliveries ≡ some d
        → (d.invocation_id == "i1") ≡ true
        → IsBehind "i1" second.runtime_id 1000 body.attempt d)
attempt_is_fresh_example =
    attempt_is_fresh retrying "ana" "i1" pending true second 1000 second_accepted
