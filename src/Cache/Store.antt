-- ===== src/Cache/Store.antt =====
-- internal/localcache/cache.go: Apply, State, Rebuild and VerifyRange over the tables. A table is a map
-- by project, the rows of the events in the order of their primary key; JSON columns hold their values.
use agent_comms.Base.{
  ℕ, ◌+◌, String, Bool, not, ◌&&◌, ◌||◌, ◌==◌, Option, none, some, List, [], ◌∷◌, ltb, leb,
  if◌then◌else◌,
}
use agent_comms.Base.Map.{Map, get, get_or, put, delete}
use agent_comms.Model.State.{State, empty_state}
use agent_comms.Protocol.Result.{Platform, Result, ok, err, ◌>>=◌, ◌>>◌, reject_if, found}
use agent_comms.Projection.Apply.{apply_event}
use agent_comms.Contracts.Types.{SignedEvent, Receipt, EventRecord, ResultMetadata, model_event}
use agent_comms.Contracts.Signing.{Signing, verify_event_hash, verify_receipt}

-- The row of a project.
pub record ProjectRow : Type 0 where
  pub sequence : ℕ
  pub head : String
  pub state : State

pub record Cache : Type 0 where
  pub projects : Map ProjectRow
  pub events : Map (List EventRecord)
  pub server_public_key : String

abbrev pub new_row : ProjectRow
new_row = record { sequence = 0; head = ""; state = empty_state }

unfoldable pub load_project : Cache → String → ProjectRow
unfolding get_or
load_project cache project_id = get_or new_row project_id cache.projects

unfoldable pub rows_of : Cache → String → List EventRecord
unfolding get_or
rows_of cache project_id = get_or [] project_id cache.events

abbrev pub same_number : ℕ → ℕ → Bool
same_number a b = leb a b && leb b a

unfoldable pub find_row : ℕ → List EventRecord → Option EventRecord
find_row sequence [] = none
find_row sequence (x ∷ xs) =
    if same_number x.event.sequence sequence then some x else find_row sequence xs

abbrev after_row : EventRecord → Option (List EventRecord) → Option (List EventRecord)
after_row x none = none
after_row x (some xs) = some (x ∷ xs)

-- `INSERT INTO events`: none where the sequence is taken.
unfoldable pub insert_row : EventRecord → List EventRecord → Option (List EventRecord)
insert_row r [] = some (r ∷ [])
insert_row r (x ∷ xs) =
    if ltb r.event.sequence x.event.sequence
    then some (r ∷ x ∷ xs)
    else if leb r.event.sequence x.event.sequence
    then none
    else after_row x (insert_row r xs)

abbrev pub receipt_matches : SignedEvent → Receipt → Bool
receipt_matches event receipt =
    receipt.project_id == event.project_id
    && same_number receipt.sequence event.sequence
    && receipt.event_id == event.id
    && receipt.event_hash == event.hash
    && receipt.actor_intent_hash == event.actor_intent_hash

unfoldable pub check_record : Signing → String → EventRecord → Result (Unit {0})
unfolding verify_receipt verify_event_hash
check_record sg key r = do
  reject_if (not (receipt_matches r.event r.receipt)) "event and receipt do not match"
  reject_if (not (verify_receipt sg r.receipt key)) "server receipt signature is invalid"
  reject_if (not (verify_event_hash sg r.event)) "event hash is invalid"

-- An event whose number the cache has already.
unfoldable pub apply_known : Cache → SignedEvent → List EventRecord → Result Cache
unfolding find_row
apply_known cache event rows = do
  existing ← found (find_row event.sequence rows) "sql: no rows in result set"
  reject_if (not (existing.event.hash == event.hash)) "cache sequence contains a different event"
  ok cache

abbrev pub row_after : SignedEvent → State → ProjectRow
row_after event state = record { sequence = event.sequence; head = event.hash; state = state }

-- The two writes of the transaction.
unfoldable pub store_row : Cache → SignedEvent → State → List EventRecord → Cache
unfolding put
store_row cache event state rows = record cache {
  projects = put event.project_id (row_after event state) cache.projects;
  events = put event.project_id rows cache.events;
}

unfoldable pub apply_next :
    Platform → Cache → ProjectRow → EventRecord → List EventRecord → Result Cache
unfolding insert_row store_row
apply_next pf cache row r rows = do
  reject_if
      (not (same_number r.event.sequence (row.sequence + 1))
        || not (r.event.previous_hash == row.head))
      "cache event stream has a gap"
  state ← apply_event pf row.state (model_event r.event)
  rows' ← found (insert_row r rows) "UNIQUE constraint failed: events.project_id, events.sequence"
  ok (store_row cache r.event state rows')

unfoldable pub apply_to_row :
    Platform → Cache → ProjectRow → EventRecord → List EventRecord → Result Cache
unfolding apply_known apply_next
apply_to_row pf cache row r rows =
    if leb r.event.sequence row.sequence
    then apply_known cache r.event rows
    else apply_next pf cache row r rows

-- Apply
unfoldable pub apply : Platform → Signing → Cache → EventRecord → Result Cache
unfolding check_record load_project rows_of apply_to_row
apply pf sg cache r = do
  check_record sg cache.server_public_key r
  apply_to_row pf cache (load_project cache r.event.project_id) r (rows_of cache r.event.project_id)

-- State
unfoldable pub cached_state : Cache → String → Result (State × ResultMetadata)
unfolding get
cached_state cache project_id = do
  row ← found (get project_id cache.projects) "project is not available in the local cache"
  ok (
    row.state,
    record {
      consistency = "CACHED";
      server_sequence = 0;
      cache_sequence = row.sequence;
      connectivity = "OFFLINE";
    },
  )

-- Events are applied one by one, each in a transaction of its own, up to the first error.
unfoldable pub apply_all : Platform → Signing → Cache → List EventRecord → Cache × Result (Unit {0})
unfolding apply
apply_all pf sg cache [] = (cache, ok tt)
apply_all pf sg cache (r ∷ rs) = elim (apply pf sg cache r) [
  | err message ↦ (cache, err message)
  | ok cache' ↦ apply_all pf sg cache' rs
]

-- Rebuild: the cache as it is left, and the outcome.
unfoldable pub rebuild : Platform → Signing → Cache → String → Cache × Result (Unit {0})
unfolding apply_all rows_of delete
rebuild pf sg cache project_id =
    apply_all pf sg (record cache { projects = delete project_id cache.projects })
      (rows_of cache project_id)

-- `sequence >= from`, and `sequence <= to` unless `to` is 0
abbrev pub is_selected : ℕ → ℕ → EventRecord → Bool
is_selected from to r = leb from r.event.sequence && (leb to 0 || leb r.event.sequence to)

unfoldable pub select_range : ℕ → ℕ → List EventRecord → List EventRecord
select_range from to [] = []
select_range from to (x ∷ xs) =
    let rest = select_range from to xs in if is_selected from to x then x ∷ rest else rest

unfoldable pub verify_rows : Signing → String → ℕ → String → List EventRecord → Result (Unit {0})
verify_rows sg key expected previous_hash [] = ok tt
verify_rows sg key expected previous_hash (r ∷ rs) = do
  reject_if
      (not (same_number r.event.sequence expected) || not (r.event.previous_hash == previous_hash))
      "cache chain discontinuity"
  reject_if (not (verify_event_hash sg r.event)) "cache hash mismatch"
  reject_if (not (verify_receipt sg r.receipt key)) "cache receipt mismatch"
  verify_rows sg key (expected + 1) r.event.hash rs

-- The hash before the range. `answer` is what the second query of the pool's only connection, which
-- the open rows hold, brings for the event numbered `from - 1`.
abbrev pub hash_before : ℕ → Option EventRecord → Result String
hash_before from answer =
    if leb from 1
    then ok ""
    else (found answer "verification range predecessor is missing" >>= λ r. ok r.event.hash)

unfoldable pub verify_range :
    Signing → Cache → String → ℕ → ℕ → Option EventRecord → Result (Unit {0})
unfolding rows_of select_range verify_rows
verify_range sg cache project_id from to answer =
    let first = if leb from 0 then 1 else from in
    do
      reject_if (not (leb to 0) && ltb to first) "invalid verification range"
      previous_hash ← hash_before first answer
      verify_rows sg cache.server_public_key first previous_hash
          (select_range first to (rows_of cache project_id))
