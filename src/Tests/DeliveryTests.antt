-- ===== src/Tests/DeliveryTests.antt =====
-- An invocation that is delivered to a webhook.
use agent_comms.Base.{◌≡◌, ◌+◌, true, [], ◌∷◌, some}
use agent_comms.Model.State.{State, Agent, Invocation, AgentRuntime, empty_state}
use agent_comms.Model.Zero.{zero_invocation, zero_runtime}
use agent_comms.Protocol.Consumers.{next_delivery_attempt, automatic_delivery_attempts}
use agent_comms.Delivery.Attempts.{
  delivery_attempt, automatic_delivery_attempt_count, delivery_backoff,
}
use agent_comms.Delivery.Configs.{ConnectorConfig, Dispatcher, interactive_config}
use agent_comms.Delivery.Select.{Candidate}
use agent_comms.Delivery.Dispatch.{World, Submission, delivered, attempt_event, outcome_event}
use agent_comms.Delivery.Agreement.{attempt_numbers_agree}
use agent_comms.Delivery.Backoff.{delivery_backoff_doubles}
use agent_comms.Base.Integers.{pos}
use agent_comms.Tests.Fixtures.{owner}

abbrev hook : ConnectorConfig
hook = record interactive_config { typ = "WEBHOOK"; endpoint = "https://example.org/hook" }

abbrev dispatcher : Dispatcher
dispatcher = record { configs = ("hook", hook) ∷ []; project_root = "/p"; host_id = "h" }

abbrev worker : AgentRuntime
worker = record zero_runtime {
  id = "r1";
  agent_id = "bob";
  kind = "WORKER";
  connector = "WEBHOOK";
  config_reference = "hook";
  status = "ONLINE";
  max_concurrent = 1;
}

abbrev waiting : Invocation
waiting = record zero_invocation {
  id = "i1";
  target = "bob";
  requested_by = "ana";
  status = "PENDING";
}

abbrev bob : Agent
bob = record owner { id = "bob" }

abbrev open_state : State
open_state = record empty_state {
  agents = ("bob", bob) ∷ [];
  runtimes = ("r1", worker) ∷ [];
  invocations = ("i1", waiting) ∷ [];
}

abbrev world : World
world = record {
  accepts = λ s. true;
  deliver = λ config i runtime. delivered "" [];
  fresh_id = λ id. "d1";
}

abbrev candidate : Candidate
candidate = record { runtime = worker; config = hook }

abbrev first : Submission
unfolding attempt_event
first = attempt_event world waiting worker

abbrev outcome : Submission
unfolding outcome_event
outcome = outcome_event world open_state 90 waiting worker (delivered "" [])

attempt_numbers_agree_example :
    (delivery_attempt open_state "i1" + 1 ≡ next_delivery_attempt open_state "i1")
    × (automatic_delivery_attempt_count open_state "i1"
        ≡ automatic_delivery_attempts open_state "i1")
attempt_numbers_agree_example = attempt_numbers_agree open_state "i1"

delivery_backoff_doubles_example : delivery_backoff 10 ≡ some (pos 300_000_000_000)
delivery_backoff_doubles_example = delivery_backoff_doubles 9
