-- ===== src/Authority/Accepted.antt =====
-- internal/personalauthority/engine.go: what Mutate asks of a command that is new.
use agent_comms.Base.{ℕ, ◌+◌, ◌-◌, ◌%◌, ◌≡◌, refl, inl, inr, String, true, false, none, arith}
use agent_comms.Protocol.Result.{Platform, ok}
use agent_comms.Protocol.Validate.{validate_transition}
use agent_comms.Authority.Advance.{advance}
use agent_comms.Authority.Engine.{
  Command, Entry, Project, Crypto, find_entry, command_public_key, mutate, store, entry_of,
  unhashed_entry, event_of, authorize, is_bootstrap,
}
use agent_comms.Authority.Ledger.{Committed, mutate_cases}

module _ (pf : Platform) (crypto : Crypto) (project : Project) (c : Command) where
  commit-advance :
      (now : ℕ) {next : Project} {entry : Entry}
      → is_bootstrap project c ≡ false
      → Committed pf crypto project c now next entry
      → advance pf project.state (event_of project c c.payload now) ≡ ok next.state
  unfolding advance authorize store entry_of unhashed_entry
  commit-advance now later done =
      let valid : validate_transition pf project.state c.actor c.typ c.entity_id c.payload now
          ≡ ok done.payload =
        rw (later) at done.authorized in
      rw (done.stored, done.decoded, valid) (rw (done.new_entry) at done.applied)

  -- What an accepted new command has shown.
  pub record Accepted (now : ℕ) (next : Project) : Type 0 where
    pub key : String
    pub own_key : command_public_key project.state c ≡ ok key
    pub signed : crypto.verify key c ≡ true
    pub advanced : advance pf project.state (event_of project c c.payload now) ≡ ok next.state
    pub sequence : next.sequence ≡ project.sequence + 1

  -- A command with a new key that Mutate accepts, outside the bootstrap, is signed under the key that
  -- the state demands of its actor, and its event, at the time truncated to microseconds, is accepted
  -- by the validator and the projection and leads to the stored state, under the next number.
  pub mutate-Accepted :
      (clock : ℕ) {next : Project} {entry : Entry}
      → find_entry c.idempotency_key project.log ≡ none
      → is_bootstrap project c ≡ false
      → mutate pf crypto project c clock ≡ ok (next, entry)
      → Accepted (clock - clock % 1000) next
  unfolding store entry_of unhashed_entry
  mutate-Accepted clock fresh later h = elim (mutate_cases pf crypto project c clock h) [
    | inl (e, _, _) ↦ absurd (ground (arith, fresh, e))
    | inr (_, done) ↦ record {
      key = done.key;
      own_key = done.own_key;
      signed = done.signed;
      advanced = commit-advance _ later done;
      sequence = rw (done.stored, done.new_entry) refl;
    }
  ]
