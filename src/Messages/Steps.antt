-- ===== src/Messages/Steps.antt =====
-- internal/protocol/transitions.go and internal/projection/apply.go: the response of one recipient.
use agent_comms.Base.{
  ◌≡◌, refl, inl, inr, String, Bool, true, false, ◌==◌, Option, none, some, List, [], ◌∷◌, map,
  arith, eq_iff, Bool-cases, ◌||◌,
}
use agent_comms.Model.Payloads.{RecipientState}
use agent_comms.Model.State.{Event, Message}
use agent_comms.Protocol.Result.{ok}
use agent_comms.Protocol.Messages.{respond, recipient_status}
use agent_comms.Projection.Messages.{answer}

-- The steps of one recipient's obligation: the event's type, the kind of the message, the status
-- before and the status after.
pub data Step (typ kind before after : String) : Type 0 where
  accept :
      typ ≡ "message.ack"
      → (kind == "ACTION" || kind == "CONTRACT") ≡ true
      → before ≡ "PENDING"
      → after ≡ "ACCEPTED"
      → Step typ kind before after
  acknowledge :
      typ ≡ "message.ack"
      → (kind == "ACTION" || kind == "CONTRACT") ≡ false
      → before ≡ "PENDING"
      → after ≡ "ACKNOWLEDGED"
      → Step typ kind before after
  reject :
      typ ≡ "message.reject"
      → (before == "PENDING" || before == "ACCEPTED") ≡ true
      → after ≡ "REJECTED"
      → Step typ kind before after
  complete :
      typ ≡ "message.complete"
      → kind ≡ "ACTION"
      → before ≡ "ACCEPTED"
      → after ≡ "COMPLETED"
      → Step typ kind before after
  resolve :
      typ ≡ "message.resolve"
      → kind ≡ "BLOCKER"
      → before ≡ "ACKNOWLEDGED"
      → after ≡ "RESOLVED"
      → Step typ kind before after

-- The validator's response is a step, for each of the four types.
abbrev pub is_response : String → Bool
is_response typ =
    typ == "message.ack"
    || typ == "message.reject"
    || typ == "message.complete"
    || typ == "message.resolve"

pub respond-Step :
    (typ : String) (m : Message) (status : String) {response : String}
    → is_response typ ≡ true
    → respond typ m status ≡ ok response
    → Step typ m.kind status response
unfolding respond
respond-Step typ m status known h = elim (Bool-cases (typ == "message.ack")) [
  | inl ack ↦ elim (Bool-cases (m.kind == "ACTION" || m.kind == "CONTRACT")) [
    | inl a ↦
        accept ((eq_iff typ _).0 ack) a (ground (arith, eq_iff status "PENDING")) (ground arith)
    | inr a ↦
        acknowledge ((eq_iff typ _).0 ack) a (ground (arith, eq_iff status "PENDING"))
          (ground arith)
  ]
  | inr n1 ↦ elim (Bool-cases (typ == "message.reject")) [
    | inl r ↦ reject ((eq_iff typ _).0 r) (ground arith) (ground arith)
    | inr n2 ↦ elim (Bool-cases (typ == "message.complete")) [
      | inl c ↦
          complete ((eq_iff typ _).0 c) (ground (arith, eq_iff m.kind "ACTION"))
            (ground (arith, eq_iff status "ACCEPTED")) (ground arith)
      | inr n3 ↦
          resolve ((eq_iff typ _).0 (ground arith)) (ground (arith, eq_iff m.kind "BLOCKER"))
            (ground (arith, eq_iff status "ACKNOWLEDGED")) (ground arith)
    ]
  ]
]

recipient_status-answered :
    (e : Event) (response : String) (l : List RecipientState)
    → recipient_status e.actor (map (answer e response) l) (some response) ≡ some response
unfolding recipient_status answer
recipient_status-answered e response [] = refl
recipient_status-answered e response (r ∷ l) =
    ground (arith, recipient_status-answered e response l)

pub recipient_status-own :
    (e : Event) (response : String) (l : List RecipientState) (s : String)
    → recipient_status e.actor l none ≡ some s
    → recipient_status e.actor (map (answer e response) l) none ≡ some response
unfolding recipient_status answer
recipient_status-own e response [] s h = cc
recipient_status-own e response (r ∷ l) s h =
    ground (arith, recipient_status-answered e response l, recipient_status-own e response l s)

pub recipient_status-other :
    (e : Event) (response principal : String) (l : List RecipientState) (last : Option String)
    → (e.actor == principal) ≡ false
    → recipient_status principal (map (answer e response) l) last
      ≡ recipient_status principal l last
unfolding recipient_status answer
recipient_status-other e response principal [] last other = refl
recipient_status-other e response principal (r ∷ l) last other = ground (
  arith,
  eq_iff r.principal e.actor,
  eq_iff r.principal principal,
  eq_iff e.actor principal,
  recipient_status-other e response principal l last,
  recipient_status-other e response principal l (some r.status),
)
