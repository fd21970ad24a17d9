-- ===== src/Tests/MessageTests.antt =====
-- Messages.
use agent_comms.Base.{◌≡◌, refl, none, [], ◌∷◌}
use agent_comms.Model.Payloads.{message_response}
use agent_comms.Model.State.{State, Event, Message}
use agent_comms.Model.Zero.{zero_message}
use agent_comms.Protocol.Result.{ok}
use agent_comms.Authority.Advance.{advance}
use agent_comms.Messages.Responses.{Responded, response_steps}
use agent_comms.Tests.Fixtures.{platform, project, after, run}

abbrev request : Message
request = record zero_message {
  id = "m1";
  kind = "ACTION";
  from = "ana";
  to = "claude-a" ∷ "ana" ∷ [];
  subject = "fix it";
  status = "OPEN";
  recipients =
      record { principal = "claude-a"; status = "PENDING"; at = none }
      ∷ record { principal = "ana"; status = "PENDING"; at = none }
      ∷ [];
}

abbrev asked : State
asked = record project { messages = ("m1", request) ∷ [] }

abbrev ack : Event
ack = record {
  id = "evt-4";
  sequence = 4;
  time = 1000;
  actor = "claude-a";
  typ = "message.ack";
  entity_id = "m1";
  payload = message_response (record { response = ""; note = "" });
}

abbrev acked : State
unfolding run
acked = after asked (run asked ack)

ack_accepted : advance platform asked ack ≡ ok acked
unfolding run
ack_accepted = refl

response_steps_example : Responded asked acked "claude-a" "message.ack" "m1"
response_steps_example = response_steps platform asked ack refl ack_accepted
