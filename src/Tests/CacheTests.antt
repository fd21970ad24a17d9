-- ===== src/Tests/CacheTests.antt =====
-- A log of two registrations, in a client's cache and behind pages.
use Prim.Native.String.{◌++◌ as ◌⧺◌}
use mathlib.Core.List.{◌++◌}
use agent_comms.Base.{
  ℕ, zero, suc, ◌*◌, inl, inr, Bool-cases, eq_iff, ◌≡◌, refl, ap, arith, ◌==◌, String, [], ◌∷◌,
  none, some, false, Option,
}
use agent_comms.Model.Payloads.{agent_registered}
use agent_comms.Protocol.Result.{Result, ok, err}
use agent_comms.Contracts.Types.{SignedEvent, EventRecord}
use agent_comms.Contracts.Signing.{Signing}
use agent_comms.Contracts.Pages.{CursorCodec}
use agent_comms.Cache.Store.{
  Cache, ProjectRow, load_project, rows_of, apply, apply_all, rebuild, verify_range,
}
use agent_comms.Cache.Rows.{Leads}
use agent_comms.Cache.Chain.{IsVerified, apply-IsVerified}
use agent_comms.Cache.Again.{Applies, here, next, apply_again}
use agent_comms.Cache.Ranges.{verify_range-IsVerified}
use agent_comms.Cache.Rebuilt.{replica_agrees, rebuild_fails}
use agent_comms.Pages.Events.{authority_metadata}
use agent_comms.Pages.Export.{IsCodec, export_jsonl, export_jsonl_complete}
use agent_comms.Pages.Sync.{sync_project, sync_project_catches_up}
use agent_comms.Tests.Fixtures.{platform, run}

abbrev signing : Signing
signing = record {
  payload_sha256 = λ p. "p";
  event_sha256 = λ c. c.previous_hash ⧺ c.id;
  verify_signature = λ key receipt signature. key == signature;
}

abbrev event : ℕ → String → String → String → SignedEvent
event n name previous hash = record {
  project_id = "p1";
  sequence = n;
  id = name;
  time = 1000 * n;
  actor = name;
  actor_key_fingerprint = "";
  typ = "agent.register";
  entity_id = name;
  payload =
      agent_registered (record { display_name = name; public_key = "k"; principal_type = "HUMAN" });
  previous_hash = previous;
  hash = hash;
  actor_intent_hash = "i";
  idempotency_key = name;
}

abbrev signed : SignedEvent → EventRecord
signed e = record {
  event = e;
  receipt = record {
    project_id = e.project_id;
    sequence = e.sequence;
    event_id = e.id;
    event_hash = e.hash;
    actor_intent_hash = e.actor_intent_hash;
    committed_at = e.time;
    key_fingerprint = "f";
    signature = "server";
  };
}

abbrev first : EventRecord
first = signed (event 1 "ana" "" "ana")

abbrev second : EventRecord
second = signed (event 2 "bob" "ana" "anabob")

abbrev empty_cache : Cache
empty_cache = record { projects = []; events = []; server_public_key = "server" }

abbrev or_cache : Cache → Result Cache → Cache
or_cache c (ok d) = d
or_cache c (err message) = c

abbrev one : Cache
unfolding run apply
one = or_cache empty_cache (apply platform signing empty_cache first)

abbrev two : Cache
unfolding run apply one
two = or_cache one (apply platform signing one second)

one_accepted : apply platform signing empty_cache first ≡ ok one
unfolding run apply one
one_accepted = refl

two_accepted : apply platform signing one second ≡ ok two
unfolding run apply one two
two_accepted = refl

empty_cache-IsVerified : IsVerified platform signing empty_cache
unfolding load_project rows_of
empty_cache-IsVerified project = refl

one-IsVerified : IsVerified platform signing one
one-IsVerified =
    apply-IsVerified platform signing empty_cache first empty_cache-IsVerified one_accepted

apply-IsVerified_example : IsVerified platform signing two
apply-IsVerified_example = apply-IsVerified platform signing one second one-IsVerified two_accepted

two-IsVerified : IsVerified platform signing two
two-IsVerified = apply-IsVerified platform signing one second one-IsVerified two_accepted

second_in_between : Applies platform signing one two
second_in_between = next second here two_accepted

apply_again_example : apply platform signing two first ≡ ok two
apply_again_example =
    apply_again platform signing empty_cache first empty_cache-IsVerified one_accepted
      second_in_between

verify_range-IsVerified_example : verify_range signing two "p1" 0 0 none ≡ ok tt
verify_range-IsVerified_example =
    verify_range-IsVerified platform signing two "p1" 0 0 none two-IsVerified (omega arith)

replica_agrees_example :
    (next : Cache) × (apply_all platform signing empty_cache (rows_of two "p1") ≡ (next, ok tt))
    × (load_project next "p1" ≡ load_project two "p1")
    × (rows_of next "p1" ≡ rows_of two "p1")
unfolding run apply one two
replica_agrees_example =
    replica_agrees platform signing two empty_cache "p1" two-IsVerified refl refl refl

two_rows : rows_of two "p1" ≡ first ∷ second ∷ []
unfolding run apply rows_of one two
two_rows = refl

rebuild_fails_example : rebuild platform signing two "p1" ≡ (
  record two { projects = [] },
  err "UNIQUE constraint failed: events.project_id, events.sequence",
)
unfolding run apply rows_of rebuild one two
rebuild_fails_example =
    rebuild_fails platform signing two "p1" first (second ∷ []) two-IsVerified two_rows

-- A number as that many marks and a stop.
marks : ℕ → String
marks zero = "."
marks (suc n) = String.◌∷◌ "I" (marks n)

count : String → ℕ
count String.[] = 0
count (String.◌∷◌ c s) = suc (count s)

before : ℕ → Option ℕ
before zero = none
before (suc n) = some n

unmark : String → Option ℕ
unfolding count before
unmark s = before (count s)

abbrev codec : CursorCodec
codec = record { encode = marks; decode = unmark }

count-marks : (n : ℕ) → count (marks n) ≡ suc n
unfolding count marks
count-marks zero = refl
count-marks (suc n) = ap suc (count-marks n)

unmark-marks : (n : ℕ) → unmark (marks n) ≡ some n
unfolding unmark before
unmark-marks n = ap before (count-marks n)

marks_not_empty : (n : ℕ) → (marks n == "") ≡ false
unfolding count
marks_not_empty n = elim (Bool-cases (marks n == "")) [
  | inl e ↦ absurd (omega (arith, count-marks n, ap count ((eq_iff (marks n) "").0 e)))
  | inr e ↦ e
]

codec-IsCodec : IsCodec codec
codec-IsCodec = record { reads_back = unmark-marks; not_empty = marks_not_empty }

export_jsonl_complete_example :
    export_jsonl 3 codec authority_metadata (first ∷ second ∷ []) ≡ ok (first ∷ second ∷ [])
export_jsonl_complete_example =
    export_jsonl_complete codec authority_metadata (first ∷ second ∷ []) codec-IsCodec
      (omega arith, (omega arith, tt))

abbrev two_row : ProjectRow
unfolding run apply one two load_project
two_row = load_project two "p1"

second-Leads : Leads platform signing "server" "p1" (load_project one "p1") second two_row
unfolding run apply one two load_project two_row
second-Leads = record {
  own = refl;
  checked = refl;
  next = refl;
  linked = refl;
  state = two_row.state;
  projected = refl;
  reached = refl;
}

sync_project_catches_up_example :
    (next : Cache) × (sync_project platform signing codec authority_metadata
        (rows_of one "p1" ++ (second ∷ []))
        2
        one
        "p1"
      ≡ (next, ok tt))
    × (load_project next "p1" ≡ two_row)
    × (rows_of next "p1" ≡ rows_of one "p1" ++ (second ∷ []))
unfolding run apply one load_project
sync_project_catches_up_example =
    sync_project_catches_up platform signing codec authority_metadata "p1" one (second ∷ []) two_row
      codec-IsCodec refl (one-IsVerified "p1") (two_row, second-Leads, refl)
