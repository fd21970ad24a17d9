-- ===== src/Authority/Engine.antt =====
-- internal/personalauthority/engine.go: the authority of one project, without its database. The
-- decoder of a payload fails on a value that is not of the event's type.
use Prim.Native.String.{◌++◌}
use Prim.Native.Char.{Char}
use text.Mathlib.Text.{char_at?}
use agent_comms.Base.{
  ℕ, zero, suc, ◌+◌, ◌-◌, ◌/◌, ◌%◌, String, Bool, not, ◌&&◌, ◌||◌, ◌==◌, Option, none, some, List,
  [], ◌∷◌, ltb, leb, if◌then◌else◌,
}
use agent_comms.Base.Map.{Map, get, put}
use agent_comms.Base.Text.{trim_space}
use agent_comms.Model.Payloads.{Payload}
use agent_comms.Model.State.{State, Event, empty_state}
use agent_comms.Model.EventTypes.{decodes}
use agent_comms.Protocol.Result.{Platform, Result, ok, err, ◌>>=◌, ◌>>◌, reject_if, found}
use agent_comms.Protocol.Standing.{role_owner}
use agent_comms.Protocol.Approvals.{requires_elevated_key}
use agent_comms.Protocol.Settings.{max_command_bytes}
use agent_comms.Protocol.Evidence.{command_clock_skew}
use agent_comms.Protocol.Cast.{to_agent_registered, to_agent_activated}
use agent_comms.Protocol.Validate.{validate_transition}
use agent_comms.Projection.Agents.{fingerprint}
use agent_comms.Projection.Apply.{apply_event}
use agent_comms.Contracts.Types.{SignedEvent}
use agent_comms.Contracts.Signing.{Signing, hash_event}

-- A signed command; `payload` is its JSON text decoded, `payload_bytes` the length of the text.
pub record Command : Type 0 where
  pub project_id : String
  pub actor : String
  pub typ : String
  pub entity_id : String
  pub payload : Payload
  pub payload_bytes : ℕ
  pub idempotency_key : String
  pub issued_at : ℕ
  pub expected_sequence : ℕ
  pub public_key : String
  pub signature : String

-- One row of the events table.
pub record Entry : Type 0 where
  pub event : Event
  pub key_fingerprint : String
  pub previous_hash : String
  pub hash : String
  pub intent_hash : String
  pub idempotency_key : String

-- The row of the project, and its events, the latest first.
pub record Project : Type 0 where
  pub project_id : String
  pub owner : String
  pub sequence : ℕ
  pub head_hash : String
  pub state : State
  pub log : List Entry

-- The control plane's cryptography: the hash of a command's intent, the test of its signature under
-- a public key, and the SHA-256 sums that hash an event.
pub record Crypto : Type 0 where
  pub intent_hash : Command → String
  pub verify : String → Command → Bool
  pub signing : Signing

unfoldable pub create_project : String → String → Result Project
unfolding trim_space
create_project project_id owner = do
  reject_if (trim_space project_id == "" || trim_space owner == "") "project and owner are required"
  ok (record {
    project_id = project_id;
    owner = owner;
    sequence = 0;
    head_hash = "";
    state = empty_state;
    log = [];
  })

-- The stored event of an idempotency key.
unfoldable pub find_entry : String → List Entry → Option Entry
find_entry key [] = none
find_entry key (x ∷ xs) = if x.idempotency_key == key then some x else find_entry key xs

unfoldable pub validate_command : Command → ℕ → Result (Unit {0})
unfolding trim_space
validate_command c now = do
  reject_if
      (trim_space c.project_id == ""
        || trim_space c.actor == ""
        || trim_space c.typ == ""
        || trim_space c.idempotency_key == "")
      "project, actor, type, and idempotency key are required"
  reject_if (ltb max_command_bytes c.payload_bytes) "command payload exceeds 262144 bytes"
  reject_if
      (leb c.issued_at 0
        || ltb (c.issued_at + command_clock_skew) now
        || ltb (now + command_clock_skew) c.issued_at)
      "command issuance time is outside the allowed clock skew"

unfoldable pub command_public_key : State → Command → Result String
unfolding get
command_public_key st c =
    if c.typ == "agent.register"
    then (do
      reject_if (not (c.actor == c.entity_id) || c.public_key == "")
          "registration must be self-signed with a public key"
      ok c.public_key)
    else (do
      a ← found (get c.actor st.agents) "actor is not registered"
      ok (
          if not (a.elevated_public_key == "")
            && requires_elevated_key st c.actor c.typ c.entity_id c.payload
          then a.elevated_public_key
          else a.public_key))

digit : Option Char → String
digit none = ""
digit (some c) = String.◌∷◌ c String.[]

padded : ℕ → ℕ → String → String
unfolding digit
padded zero n text = text
padded (suc k) n text = padded k (n / 10) (digit (char_at? "0123456789" (n % 10)) ++ text)

-- fmt.Sprintf("evt-%020d", sequence)
unfoldable pub event_id : ℕ → String
unfolding padded
event_id sequence = "evt-" ++ padded 20 sequence ""

-- The first activation of the owner, which the validator never sees.
unfoldable pub is_bootstrap : Project → Command → Bool
is_bootstrap project c =
    c.typ == "agent.activate"
    && (leb project.sequence 1 && leb 1 project.sequence)
    && c.actor == project.owner
    && c.entity_id == project.owner

unfoldable pub bootstrap : Command → Result Payload
bootstrap c = do
  activation ← found (to_agent_activated c.payload) "initial owner activation must assign OWNER"
  reject_if (not (activation.role == role_owner)) "initial owner activation must assign OWNER"
  ok c.payload

unfoldable pub check_registration_key : Command → Result (Unit {0})
check_registration_key c =
    if c.typ == "agent.register"
    then (do
      registration ← found (to_agent_registered c.payload) "registration payload is required"
      reject_if (not (registration.public_key == c.public_key))
          "registration payload and command public keys differ")
    else ok tt

-- The payload that the command may commit.
unfoldable pub authorize : Platform → Project → Command → ℕ → Result Payload
unfolding is_bootstrap bootstrap
authorize pf project c now =
    if is_bootstrap project c
    then bootstrap c
    else validate_transition pf project.state c.actor c.typ c.entity_id c.payload now

abbrev pub event_of : Project → Command → Payload → ℕ → Event
event_of project c payload now = record {
  id = event_id (project.sequence + 1);
  sequence = project.sequence + 1;
  time = now;
  actor = c.actor;
  typ = c.typ;
  entity_id = c.entity_id;
  payload = payload;
}

-- The event of a row as HashEvent reads it; it does not read the hash.
abbrev pub signed_event : String → Entry → SignedEvent
signed_event project_id x = record {
  project_id = project_id;
  sequence = x.event.sequence;
  id = x.event.id;
  time = x.event.time;
  actor = x.event.actor;
  actor_key_fingerprint = x.key_fingerprint;
  typ = x.event.typ;
  entity_id = x.event.entity_id;
  payload = x.event.payload;
  previous_hash = x.previous_hash;
  hash = "";
  actor_intent_hash = x.intent_hash;
  idempotency_key = x.idempotency_key;
}

unfoldable pub unhashed_entry : Platform → Crypto → Project → Command → String → Event → Entry
unfolding fingerprint
unhashed_entry pf crypto project c key event = record {
  event = event;
  key_fingerprint = fingerprint pf key;
  previous_hash = project.head_hash;
  hash = "";
  intent_hash = crypto.intent_hash c;
  idempotency_key = c.idempotency_key;
}

-- The row that a command signed under `key` adds.
unfoldable pub entry_of : Platform → Crypto → Project → Command → String → Event → Entry
unfolding hash_event unhashed_entry
entry_of pf crypto project c key event =
    let x = unhashed_entry pf crypto project c key event in
    record x { hash = hash_event crypto.signing (signed_event project.project_id x) }

-- The two writes of the transaction.
unfoldable pub store : Project → Entry → State → Project
store project entry state = record project {
  sequence = entry.event.sequence;
  head_hash = entry.hash;
  state = state;
  log = entry ∷ project.log;
}

-- A command whose key is new.
unfoldable pub commit : Platform → Crypto → Project → Command → ℕ → Result (Project × Entry)
unfolding check_registration_key authorize store entry_of
commit pf crypto project c now = do
  validate_command c now
  reject_if (not (decodes c.typ c.payload)) "unsupported event type"
  key ← command_public_key project.state c
  reject_if (not (crypto.verify key c)) "actor command signature is invalid"
  reject_if
      (not (leb c.expected_sequence 0)
        && not
            (leb c.expected_sequence project.sequence && leb project.sequence c.expected_sequence))
      "expected project sequence differs"
  check_registration_key c
  payload ← authorize pf project c now
  let entry = entry_of pf crypto project c key (event_of project c payload now)
  state ← apply_event pf project.state entry.event
  ok (store project entry state, entry)

-- Mutate: a known key replays its event, if the command is the same.
unfoldable pub mutate : Platform → Crypto → Project → Command → ℕ → Result (Project × Entry)
unfolding find_entry commit
mutate pf crypto project c clock = elim (find_entry c.idempotency_key project.log) [
  | some entry ↦
      if entry.intent_hash == crypto.intent_hash c
      then ok (project, entry)
      else err "idempotency key was already used for a different command"
  | none ↦ commit pf crypto project c (clock - clock % 1000)
]

-- Mutate, which looks up the command's project first.
unfoldable pub mutate_project :
    Platform → Crypto → Map Project → Command → ℕ → Result (Map Project × Entry)
unfolding mutate put
mutate_project pf crypto projects c clock = do
  project ← found (get c.project_id projects) "project not found"
  r ← mutate pf crypto project c clock
  ok (put c.project_id r.0 projects, r.1)
