-- ===== src/Authority/Ledger.antt =====
-- internal/personalauthority/engine.go: the events of a project form one chain, from which its state
-- can be built again.
use agent_comms.Base.{
  ℕ, ◌+◌, ◌-◌, ◌%◌, ◌⊎◌, ◌≡◌, refl, sym, ap, inl, inr, String, true, ◌∙◌, none, some, List, [], ◌∷◌,
  arith, eq_iff, Option-cases,
}
use text.Mathlib.TextPositions.{eq_refl}
use agent_comms.Model.Payloads.{Payload}
use agent_comms.Model.State.{State, empty_state}
use agent_comms.Protocol.Result.{Platform, ok, bind_ok, then_ok, require_ok, ok-injective}
use agent_comms.Projection.Apply.{apply_event}
use agent_comms.Model.EventTypes.{decodes}
use agent_comms.Contracts.Signing.{hash_event}
use agent_comms.Authority.Engine.{
  Command, Entry, Project, Crypto, create_project, find_entry, command_public_key, commit, mutate,
  store, entry_of, event_of, authorize, signed_event, unhashed_entry,
}

-- The log up to a head: each entry is hashed behind the one before it, has the next sequence number
-- and a key of its own, and leads from the state of the one before it to its own.
abbrev pub Chain : Platform → Crypto → String → String → ℕ → State → List Entry → Type 0
Chain pf crypto project_id head sequence st [] = (head ≡ "") × (sequence ≡ 0) × (st ≡ empty_state)
Chain pf crypto project_id head sequence st (x ∷ xs) =
    (head ≡ x.hash)
    × (x.hash ≡ hash_event crypto.signing (signed_event project_id x))
    × (x.event.sequence ≡ sequence)
    × (find_entry x.idempotency_key xs ≡ none)
    × (n : ℕ) × (sequence ≡ n + 1)
    × (before : State) × (apply_event pf before x.event ≡ ok st)
    × Chain pf crypto project_id x.previous_hash n before xs

abbrev pub IsSound : Platform → Crypto → Project → Type 0
IsSound pf crypto project =
    Chain pf crypto project.project_id project.head_hash project.sequence project.state project.log

-- What a command that was committed has passed, and the row that it added.
pub record Committed (pf : Platform) (crypto : Crypto) (project : Project) (c : Command) (now : ℕ)
    (next : Project) (entry : Entry) : Type 0 where
  pub decoded : decodes c.typ c.payload ≡ true
  pub key : String
  pub own_key : command_public_key project.state c ≡ ok key
  pub signed : crypto.verify key c ≡ true
  pub payload : Payload
  pub authorized : authorize pf project c now ≡ ok payload
  pub new_entry : entry ≡ entry_of pf crypto project c key (event_of project c payload now)
  pub state : State
  pub applied : apply_event pf project.state entry.event ≡ ok state
  pub stored : next ≡ store project entry state

pub commit-Committed :
    (pf : Platform) (crypto : Crypto) (project : Project) (c : Command) (now : ℕ) {next : Project}
    {entry : Entry}
    → commit pf crypto project c now ≡ ok (next, entry)
    → Committed pf crypto project c now next entry
unfolding commit
commit-Committed pf crypto project c now h =
    let (g1, h1) = then_ok _ _ h in
    let (g2, h2) = then_ok _ _ h1 in
    let (key, g3, h3) = bind_ok _ _ h2 in
    let (g4, h4) = then_ok _ _ h3 in
    let (g5, h5) = then_ok _ _ h4 in
    let (g6, h6) = then_ok _ _ h5 in
    let (payload, g7, h7) = bind_ok _ _ h6 in
    let (state, g8, h8) = bind_ok _ _ h7 in
    let pair = ok-injective h8 in
    let entries = ap (λ r. r.1) pair in
    record {
      decoded = require_ok _ _ g2;
      key = key;
      own_key = g3;
      signed = require_ok _ _ g4;
      payload = payload;
      authorized = g7;
      new_entry = sym entries;
      state = state;
      applied = ap (λ x. apply_event pf project.state x.event) (sym entries) ∙ g8;
      stored = sym (ap (λ r. r.0) pair) ∙ ap (λ x. store project x state) entries;
    }

-- The row of a command that was committed now stands under its key.
pub find-commit :
    (pf : Platform) (crypto : Crypto) (project : Project) (c : Command) (now : ℕ) {next : Project}
    {entry : Entry}
    → Committed pf crypto project c now next entry
    → find_entry c.idempotency_key next.log ≡ some entry
unfolding find_entry store entry_of unhashed_entry
find-commit pf crypto project c now done = rw (done.stored, done.new_entry) (simp (eq_refl))

create_project-IsSound :
    (pf : Platform) (crypto : Crypto) (project_id owner : String) {project : Project}
    → create_project project_id owner ≡ ok project
    → IsSound pf crypto project
unfolding create_project
create_project-IsSound pf crypto project_id owner h =
    moved {a = empty_project} (ok-injective (then_ok _ _ h).1) (refl, refl, refl)
  where
    empty_project : Project
    empty_project = record {
      project_id = project_id;
      owner = owner;
      sequence = 0;
      head_hash = "";
      state = empty_state;
      log = [];
    }

    moved : {a b : Project} → a ≡ b → IsSound pf crypto a → IsSound pf crypto b
    moved e sound = rw (← e) sound

commit-IsSound :
    (pf : Platform) (crypto : Crypto) (project : Project) (c : Command) (now : ℕ) {next : Project}
    {entry : Entry}
    → IsSound pf crypto project
    → find_entry c.idempotency_key project.log ≡ none
    → Committed pf crypto project c now next entry
    → IsSound pf crypto next
unfolding store entry_of unhashed_entry
commit-IsSound pf crypto project c now sound fresh done = rw (done.stored) (
  refl,
  rw (done.new_entry) refl,
  refl,
  rw (done.new_entry) fresh,
  project.sequence,
  rw (done.new_entry) refl,
  project.state,
  done.applied,
  rw (done.new_entry) sound,
)

-- A command is new, or its key stands in the log with the same intent.
pub mutate_cases :
    (pf : Platform) (crypto : Crypto) (project : Project) (c : Command) (clock : ℕ) {next : Project}
    {entry : Entry}
    → mutate pf crypto project c clock ≡ ok (next, entry)
    → ((find_entry c.idempotency_key project.log ≡ some entry)
        × (entry.intent_hash ≡ crypto.intent_hash c)
        × (next ≡ project))
      ⊎ ((find_entry c.idempotency_key project.log ≡ none)
          × Committed pf crypto project c (clock - clock % 1000) next entry)
unfolding mutate
mutate_cases pf crypto project c clock h =
    elim (Option-cases (find_entry c.idempotency_key project.log)) [
      | inl e ↦ inr (e, commit-Committed pf crypto project c _ (rw (mutate, e) at h))
      | inr (x, e) ↦ inl (ground (arith, eq_iff x.intent_hash (crypto.intent_hash c)))
    ]

-- If a project is sound, meaning that every event of its log is hashed behind the one before it, has
-- the next sequence number and a key that no earlier event has, and that the events applied in their
-- order to the empty state give the project's state, then it is sound after every command that Mutate
-- accepts.
pub mutate-IsSound :
    (pf : Platform) (crypto : Crypto) (project : Project) (c : Command) (clock : ℕ) {next : Project}
    {entry : Entry}
    → IsSound pf crypto project
    → mutate pf crypto project c clock ≡ ok (next, entry)
    → IsSound pf crypto next
mutate-IsSound pf crypto project c clock sound h = elim (mutate_cases pf crypto project c clock h) [
  | inl (e, same, kept) ↦ rw (kept) sound
  | inr (fresh, done) ↦ commit-IsSound pf crypto project c _ sound fresh done
]
