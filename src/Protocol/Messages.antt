-- ===== src/Protocol/Messages.antt =====
-- internal/protocol/transitions.go, ValidateTransition: the `message.` blocks. An assertion that would
-- panic on a payload of another type is an error here.
use Prim.Native.String.{◌++◌, len}
use agent_comms.Base.{
  ℕ, String, Bool, true, false, not, ◌&&◌, ◌||◌, ◌==◌, Option, none, some, List, [], ◌∷◌, ltb,
  if◌then◌else◌, is_empty, length,
}
use agent_comms.Base.Map.{get, get_or}
use agent_comms.Base.Text.{has}
use agent_comms.Model.Payloads.{Payload, RecipientState, message_posted, message_response}
use agent_comms.Model.State.{State, Message}
use agent_comms.Model.Zero.{zero_agent}
use agent_comms.Protocol.Result.{Platform, Result, ok, err, ◌>>=◌, ◌>>◌, reject_if, found}
use agent_comms.Protocol.Standing.{governs}
use agent_comms.Protocol.Approvals.{has_bound_approval, approval_subject_digest}
use agent_comms.Protocol.Cast.{to_message_posted, to_message_response}

abbrev pub max_recipients : ℕ
max_recipients = 100

unfoldable pub valid_kinds : List String
valid_kinds = "FYI" ∷ "ACTION" ∷ "CONTRACT" ∷ "BLOCKER" ∷ "DECISION" ∷ []

unfoldable pub is_active : State → String → Bool
unfolding get
is_active st id = elim (get id st.agents) [ none ↦ false | some a ↦ a.status == "ACTIVE" ]

unfoldable pub check_recipients : State → List String → Result (Unit {0})
unfolding is_active
check_recipients st [] = ok tt
check_recipients st (r ∷ rest) =
    let later = check_recipients st rest in
    if is_active st r then later else err ("active message recipient " ++ (r ++ " is required"))

abbrev is_there {ℓ} : {A : Type ℓ} → Option A → Bool
is_there none = false
is_there (some _) = true

unfoldable pub check_post : Platform → State → String → String → Payload → ℕ → Result (Unit {0})
unfolding valid_kinds has get get_or governs
check_post pf st actor id payload now = do
  p ← found (to_message_posted payload) "message payload is required"
  reject_if (not (has valid_kinds p.kind) || is_empty p.to || p.subject == "")
      "valid kind (FYI, ACTION, CONTRACT, BLOCKER, DECISION), recipient, and subject are required"
  reject_if (is_there (get id st.messages)) "message already exists"
  reject_if (ltb max_recipients (length p.to)) "message recipients exceed 100"
  check_recipients st p.to
  reject_if (ltb 1200 (len p.body)) "message body exceeds 1200 characters"
  reject_if
      (p.kind == "CONTRACT"
        && not (governs (get_or zero_agent actor st.agents).role)
        && not (
            has_bound_approval st ("contract:" ++ id)
              (approval_subject_digest pf actor "message.post" id (message_posted p)) "" now))
      "approved contract publication is required"

-- The loop for the actor's recipient entry; the last one counts.
unfoldable pub recipient_status : String → List RecipientState → Option String → Option String
recipient_status actor [] last = last
recipient_status actor (r ∷ rest) last =
    recipient_status actor rest (if r.principal == actor then some r.status else last)

-- The inner switch: the response that the event stands for.
unfoldable pub respond : String → Message → String → Result String
respond typ m status =
    if typ == "message.ack"
    then (do
      reject_if (not (status == "PENDING")) "pending message obligation is required"
      ok (if m.kind == "ACTION" || m.kind == "CONTRACT" then "ACCEPTED" else "ACKNOWLEDGED"))
    else if typ == "message.reject"
    then (do
      reject_if (not (status == "PENDING") && not (status == "ACCEPTED"))
          "open message obligation is required"
      ok "REJECTED")
    else if typ == "message.complete"
    then (do
      reject_if (not (m.kind == "ACTION")) "only ACTION messages can complete"
      reject_if (not (status == "ACCEPTED")) "accepted ACTION message is required"
      ok "COMPLETED")
    else (do
      reject_if (not (m.kind == "BLOCKER")) "only BLOCKER messages can resolve"
      reject_if (not (status == "ACKNOWLEDGED")) "acknowledged BLOCKER message is required"
      ok "RESOLVED")

unfoldable pub check_response : State → String → String → String → Payload → Result Payload
unfolding get recipient_status respond
check_response st actor typ id payload = do
  m ← found (get id st.messages) "message not found"
  status ← found (recipient_status actor m.recipients none) "message recipient required"
  p ← found (to_message_response payload) "message payload is required"
  response ← respond typ m status
  ok (message_response (record p { response = response }))
