-- ===== src/Projection/Messages.antt =====
-- internal/projection/apply.go: the cases of messages.
use agent_comms.Base.{String, not, ◌&&◌, ◌==◌, none, some, List, map, any, if◌then◌else◌}
use agent_comms.Base.Map.{get, get_or, put}
use agent_comms.Model.Payloads.{MessagePosted, MessageResponse, RecipientState}
use agent_comms.Model.State.{State, Message, Event}
use agent_comms.Model.Zero.{zero_message}
use agent_comms.Projection.Stamp.{stamp_clock}

unfoldable pub initial_recipient_status : String → String
initial_recipient_status kind = if kind == "FYI" then "DELIVERED" else "PENDING"

-- Rejected if anybody rejected; satisfied if nobody is still pending; open otherwise.
unfoldable pub message_status : List RecipientState → String
unfolding any
message_status recipients =
    if any (λ r. r.status == "REJECTED") recipients
    then "REJECTED"
    else if any (λ r. r.status == "PENDING") recipients
    then "OPEN"
    else "SATISFIED"

unfoldable pub apply_message_posted : State → Event → MessagePosted → State
unfolding put initial_recipient_status
apply_message_posted s e p = record s {
  messages =
      put e.entity_id
        (record {
          id = e.entity_id;
          kind = p.kind;
          from = e.actor;
          to = p.to;
          subject = p.subject;
          body = p.body;
          task_id = p.task_id;
          status = if p.kind == "FYI" then "DELIVERED" else "OPEN";
          recipients =
              map
                (λ to. record {
                  principal = to;
                  status = initial_recipient_status p.kind;
                  at = none;
                })
                p.to;
          clock = record {
            created_at = e.time;
            updated_at = e.time;
            created_sequence = e.sequence;
            updated_sequence = e.sequence;
          };
        })
        s.messages;
}

unfoldable pub answer : Event → String → RecipientState → RecipientState
answer e response r =
    if r.principal == e.actor then record r { status = response; at = some e.time } else r

unfoldable pub answer_message : Event → String → Message → Message
unfolding answer message_status
answer_message e response m =
    let recipients = map (answer e response) m.recipients in
    record m {
      recipients = recipients;
      status = message_status recipients;
      clock = record m.clock { updated_at = e.time; updated_sequence = e.sequence };
    }

-- A resolved blocker opens the task that it blocked.
unfoldable pub unblock : State → Event → String → State
unfolding get put
unblock s e task_id = elim (get task_id s.tasks) [
  | none ↦ s
  | some t ↦
      if t.status == "BLOCKED"
      then record s {
        tasks = put task_id (record t { status = "OPEN"; clock = stamp_clock t.clock e }) s.tasks;
      }
      else s
]

unfoldable pub apply_message_response : State → Event → MessageResponse → State
unfolding get_or put answer_message unblock
apply_message_response s e p =
    let m = answer_message e p.response (get_or zero_message e.entity_id s.messages) in
    let answered = record s { messages = put e.entity_id m s.messages } in
    if p.response == "RESOLVED" && not (m.task_id == "")
    then unblock answered e m.task_id
    else answered
