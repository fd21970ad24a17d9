-- ===== src/Authority/Replays.antt =====
-- internal/personalauthority/engine.go: a command is answered with its stored event ever after.
use agent_comms.Base.{
  ℕ, ◌≡◌, refl, sym, ap, inl, inr, String, ◌∙◌, ◌==◌, none, some, eq_iff, Bool-cases,
}
use text.Mathlib.TextPositions.{eq_refl}
use agent_comms.Base.Map.{Map, get, put, get-put, get-put_self, put-get}
use agent_comms.Protocol.Result.{Platform, ok, found, bind_ok, found_ok, ok-injective}
use agent_comms.Authority.Engine.{
  Command, Entry, Project, Crypto, find_entry, mutate, mutate_project, store, entry_of,
  unhashed_entry,
}
use agent_comms.Authority.Ledger.{mutate_cases, find-commit}

module _ (pf : Platform) (crypto : Crypto) where
  -- Accepted commands lead from some projects to others, one after the other.
  pub data Accepts (ps : Map Project) : Map Project → Type 0 where
    here : Accepts ps ps
    next :
        {qs rs : Map Project} (c : Command) (clock : ℕ) (entry : Entry)
        → Accepts ps qs
        → mutate_project pf crypto qs c clock ≡ ok (rs, entry)
        → Accepts ps rs

  -- The project has stored the entry under the key.
  record Stores (ps : Map Project) (project_id key : String) (entry : Entry) : Type 0 where
    project : Project
    known : get project_id ps ≡ some project
    stored : find_entry key project.log ≡ some entry

  -- What an accepted command has done.
  record Answered (ps qs : Map Project) (c : Command) (clock : ℕ) (entry : Entry) : Type 0 where
    before : Project
    after : Project
    known : get c.project_id ps ≡ some before
    mutated : mutate pf crypto before c clock ≡ ok (after, entry)
    put_back : qs ≡ put c.project_id after ps

  mutate_project-Answered :
      (ps : Map Project) (c : Command) (clock : ℕ) {qs : Map Project} {entry : Entry}
      → mutate_project pf crypto ps c clock ≡ ok (qs, entry)
      → Answered ps qs c clock entry
  unfolding mutate_project
  mutate_project-Answered ps c clock h =
      let (before, g1, h1) = bind_ok (found (get c.project_id ps) _) _ h in
      let (r, g2, h2) = bind_ok (mutate pf crypto before c clock) _ h1 in
      let pair = ok-injective h2 in
      let same = ap (λ x. x.1) pair in
      record {
        before = before;
        after = r.0;
        known = found_ok _ _ g1;
        mutated = g2 ∙ ap (λ x. ok (r.0, x)) same;
        put_back = sym (ap (λ x. x.0) pair);
      }

  -- A stored entry stays under its key.
  mutate_keeps :
      (project : Project) (c : Command) (clock : ℕ) (key : String) (old : Entry) {next : Project}
      {entry : Entry}
      → find_entry key project.log ≡ some old
      → mutate pf crypto project c clock ≡ ok (next, entry)
      → find_entry key next.log ≡ some old
  unfolding find_entry store entry_of unhashed_entry
  mutate_keeps project c clock key old there h = elim (mutate_cases pf crypto project c clock h) [
    | inl (_, _, kept) ↦ rw (kept) there
    | inr (fresh, done) ↦ elim (Bool-cases (c.idempotency_key == key)) [
      | inl same ↦
          let e = (eq_iff c.idempotency_key key).0 same in
          let clash : none ≡ some old = sym fresh ∙ (rw (e) there) in absurd cc
      | inr other ↦ rw (done.stored, done.new_entry) (rw (other) there)
    ]
  ]

  Stores-step :
      (ps : Map Project) (c : Command) (clock : ℕ) (project_id key : String) (old : Entry)
      {qs : Map Project} {entry : Entry}
      → Stores ps project_id key old
      → Answered ps qs c clock entry
      → Stores qs project_id key old
  Stores-step ps c clock project_id key old s a = elim (Bool-cases (c.project_id == project_id)) [
    | inr other ↦ record {
      project = s.project;
      known = rw (a.put_back) (get-put c.project_id project_id a.after ps ∙ rw (other) s.known);
      stored = s.stored;
    }
    | inl same ↦
        let e = (eq_iff c.project_id project_id).0 same in
        let p : some a.before ≡ some s.project = sym a.known ∙ rw (e) s.known in
        let same_project : a.before ≡ s.project = cc in
        record {
          project = a.after;
          known = rw (a.put_back) (get-put c.project_id project_id a.after ps ∙ rw (same) refl);
          stored = mutate_keeps a.before c clock key old (rw (same_project) s.stored) a.mutated;
        }
  ]

  Stores-Accepts :
      (ps : Map Project) (project_id key : String) (old : Entry) {rs : Map Project}
      → Stores ps project_id key old
      → Accepts ps rs
      → Stores rs project_id key old
  Stores-Accepts ps project_id key old s here = s
  Stores-Accepts ps project_id key old s (next {qs = qs} c clock entry before h) =
      Stores-step qs c clock project_id key old (Stores-Accepts ps project_id key old s before)
        (mutate_project-Answered qs c clock h)

  -- The entry that answers a command is stored under its key, with its intent.
  Answered-Stores :
      (ps : Map Project) (c : Command) (clock : ℕ) {qs : Map Project} {entry : Entry}
      → Answered ps qs c clock entry
      → Stores qs c.project_id c.idempotency_key entry × (entry.intent_hash ≡ crypto.intent_hash c)
  unfolding entry_of unhashed_entry
  Answered-Stores ps c clock {qs} {entry} a =
      let known : get c.project_id qs ≡ some a.after =
        rw (a.put_back) (get-put_self c.project_id a.after ps) in
      elim (mutate_cases pf crypto a.before c clock a.mutated) [
        | inl (there, same, kept) ↦
            (record { project = a.after; known = known; stored = rw (kept) there }, same)
        | inr (fresh, done) ↦ (
          record {
            project = a.after;
            known = known;
            stored = find-commit pf crypto a.before c _ done;
          },
          rw (done.new_entry) refl,
        )
      ]

  Stores-replays :
      (ps : Map Project) (c : Command) (later : ℕ) {entry : Entry}
      → Stores ps c.project_id c.idempotency_key entry
      → entry.intent_hash ≡ crypto.intent_hash c
      → mutate_project pf crypto ps c later ≡ ok (ps, entry)
  unfolding mutate_project mutate
  Stores-replays ps c later s same =
      rw (s.known) rw (mutate, s.stored) rw (same) rw (eq_refl (crypto.intent_hash c)) rw
        (put-get c.project_id ps s.known) refl

  -- A command that was accepted is answered with the same event at any later time, whatever commands
  -- to this or another project have been accepted in between, and no project changes.
  pub mutate_replays :
      (ps : Map Project) (c : Command) (clock later : ℕ) {qs rs : Map Project} {entry : Entry}
      → mutate_project pf crypto ps c clock ≡ ok (qs, entry)
      → Accepts qs rs
      → mutate_project pf crypto rs c later ≡ ok (rs, entry)
  mutate_replays ps c clock later {qs} {rs} {entry} h between =
      let (stores, same) = Answered-Stores ps c clock (mutate_project-Answered ps c clock h) in
      Stores-replays rs c later
        (Stores-Accepts qs c.project_id c.idempotency_key entry stores between) same
