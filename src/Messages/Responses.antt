-- ===== src/Messages/Responses.antt =====
-- internal/protocol/transitions.go and internal/projection/apply.go: the responses to a message.
use agent_comms.Base.{
  ◌≡◌, refl, sym, ap, ◌∙◌, inl, inr, String, true, false, ◌==◌, ◌⊎◌, none, some, arith, eq_iff,
  Option-cases, Bool-cases,
}
use agent_comms.Base.Map.{get, get_or, put, get-put_self, get_or-get}
use agent_comms.Model.Payloads.{Payload, MessageResponse, message_response}
use agent_comms.Model.State.{State, Event, Message}
use agent_comms.Model.Zero.{zero_message}
use agent_comms.Projection.Stamp.{stamp_entity}
use agent_comms.Protocol.Result.{Platform, ok, found, ◌>>=◌, bind_ok, found_ok, ok-injective}
use agent_comms.Protocol.Validate.Inversion.{validate_response}
use agent_comms.Model.EventTypes.{known_event_type}
use agent_comms.Authority.Advance.{advance, advance_ok}
use agent_comms.Projection.Apply.{apply_event}
use agent_comms.Protocol.Messages.{respond, recipient_status, check_response}
use agent_comms.Protocol.Cast.{to_message_response}
use agent_comms.Projection.Messages.{
  answer_message, message_status, unblock, apply_message_response,
}
use agent_comms.Messages.Steps.{
  Step, is_response, respond-Step, recipient_status-own, recipient_status-other,
}

stamp-messages : (s : State) (e : Event) → (stamp_entity s e).messages ≡ s.messages
unfolding stamp_entity
stamp-messages s e = ground arith

unblock-messages : (s : State) (e : Event) (id : String) → (unblock s e id).messages ≡ s.messages
unfolding unblock
unblock-messages s e id = elim (Option-cases (get id s.tasks)) [
  | inl missing ↦ rw (unblock, missing) refl
  | inr (t, there) ↦ rw (unblock, there) ground arith
]

apply_message_response-messages :
    (s : State) (e : Event) (p : MessageResponse)
    → (apply_message_response s e p).messages
      ≡ put e.entity_id
          (answer_message e p.response (get_or zero_message e.entity_id s.messages))
          s.messages
unfolding apply_message_response
apply_message_response-messages s e p =
    let m = answer_message e p.response (get_or zero_message e.entity_id s.messages) in
    ground
      (arith, unblock-messages (record s { messages = put e.entity_id m s.messages }) e m.task_id)

abbrev ResponseType : String → Type 0
ResponseType typ =
    (typ ≡ "message.ack")
    ⊎ (typ ≡ "message.reject")
    ⊎ (typ ≡ "message.complete")
    ⊎ (typ ≡ "message.resolve")

response_cases : (typ : String) → is_response typ ≡ true → ResponseType typ
response_cases typ h = elim (Bool-cases (typ == "message.ack")) [
  | inl ack ↦ inl ((eq_iff typ _).0 ack)
  | inr n1 ↦ elim (Bool-cases (typ == "message.reject")) [
    | inl r ↦ inr (inl ((eq_iff typ _).0 r))
    | inr n2 ↦ elim (Bool-cases (typ == "message.complete")) [
      | inl c ↦ inr (inr (inl ((eq_iff typ _).0 c)))
      | inr n3 ↦ inr (inr (inr ((eq_iff typ _).0 (ground arith))))
    ]
  ]
]

known_response : (typ : String) → ResponseType typ → known_event_type typ ≡ true
unfolding known_event_type
known_response typ (inl e) = rw (e) ground arith
known_response typ (inr (inl e)) = rw (e) ground arith
known_response typ (inr (inr (inl e))) = rw (e) ground arith
known_response typ (inr (inr (inr e))) = rw (e) ground arith

record ResponseChecked (st : State) (actor typ id : String) (q : Payload) : Type 0 where
  message : Message
  there : get id st.messages ≡ some message
  status : String
  was : recipient_status actor message.recipients none ≡ some status
  body : MessageResponse
  responded : respond typ message status ≡ ok body.response
  normal : q ≡ message_response body

-- The end of the check, for the message and the status that its beginning checks.
fill_response :
    (typ : String) (m : Message) (status : String) (payload : Payload) {q : Payload}
    → (found (to_message_response payload) "message payload is required" >>= λ p.
        respond typ m status >>= λ response.
        ok (message_response (record p { response = response })))
      ≡ ok q
    → (body : MessageResponse) × (respond typ m status ≡ ok body.response)
      × (q ≡ message_response body)
fill_response typ m status payload h =
    let (p, g, h1) =
      bind_ok (found (to_message_response payload) "message payload is required") _ h in
    let (response, responded, h2) = bind_ok (respond typ m status) _ h1 in
    (record p { response = response }, responded, sym (ok-injective h2))

check_response-ResponseChecked :
    (st : State) (actor typ id : String) (payload : Payload) {q : Payload}
    → check_response st actor typ id payload ≡ ok q
    → ResponseChecked st actor typ id q
unfolding check_response
check_response-ResponseChecked st actor typ id payload h =
    let (m, g1, h1) = bind_ok _ _ h in
    let (status, g2, h2) = bind_ok _ _ h1 in
    let (body, responded, normal) = fill_response typ m status payload h2 in
    record {
      message = m;
      there = found_ok _ _ g1;
      status = status;
      was = found_ok _ _ g2;
      body = body;
      responded = responded;
      normal = normal;
    }

response_applies :
    (pf : Platform) (st : State) (e : Event) (p : MessageResponse) {st' : State}
    → known_event_type e.typ ≡ true
    → apply_event pf st (record e { payload = message_response p }) ≡ ok st'
    → st'.messages
      ≡ put e.entity_id
          (answer_message e p.response (get_or zero_message e.entity_id st.messages))
          st.messages
unfolding apply_event answer_message
response_applies pf st e p known h =
    let applied = record e { payload = message_response p } in
    ap (λ s. s.messages) (sym (ok-injective (rw (known) at h)))
    ∙ stamp-messages (apply_message_response st applied p) applied
    ∙ apply_message_response-messages st applied p

-- What an accepted response found and what it leaves.
pub record Responded (st st' : State) (actor typ id : String) : Type 0 where
  pub message : Message
  pub there : get id st.messages ≡ some message
  pub status : String
  pub was : recipient_status actor message.recipients none ≡ some status
  pub response : String
  pub step : Step typ message.kind status response
  pub answered : Message
  pub now_there : get id st'.messages ≡ some answered
  pub own : recipient_status actor answered.recipients none ≡ some response
  pub others :
      (principal : String)
      → (actor == principal) ≡ false
      → recipient_status principal answered.recipients none
        ≡ recipient_status principal message.recipients none
  pub summary : answered.status ≡ message_status answered.recipients
  pub same_kind : answered.kind ≡ message.kind

-- A response (ack, reject, complete or resolve) that is accepted finds the message and its author among
-- the recipients, moves the author's status by one step of the table for the type and the kind of the
-- message, leaves every other principal's status, and keeps the kind; the status of the message
-- behind it is the summary of its recipients.
pub response_steps :
    (pf : Platform) (st : State) (e : Event) {st' : State}
    → is_response e.typ ≡ true
    → advance pf st e ≡ ok st'
    → Responded st st' e.actor e.typ e.entity_id
unfolding answer_message
response_steps pf st e known h =
    let (q, _, valid, applied) = advance_ok pf st e h in
    let checked =
      validate_response pf st e.actor e.entity_id e.payload e.time e.typ
        (response_cases e.typ known) valid in
    let checks = check_response-ResponseChecked st e.actor e.typ e.entity_id e.payload checked in
    let written =
      response_applies pf st e checks.body (known_response e.typ (response_cases e.typ known))
        (rw (checks.normal) at applied) in
    record {
      message = checks.message;
      there = checks.there;
      status = checks.status;
      was = checks.was;
      response = checks.body.response;
      step = respond-Step e.typ checks.message checks.status known checks.responded;
      answered = answer_message e checks.body.response checks.message;
      now_there =
          rw (written, get_or-get zero_message e.entity_id st.messages checks.there)
            (get-put_self e.entity_id _ st.messages);
      own = recipient_status-own e checks.body.response _ checks.status checks.was;
      others =
          λ principal other. recipient_status-other e checks.body.response principal _ none other;
      summary = refl;
      same_kind = refl;
    }
