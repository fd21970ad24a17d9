-- ===== src/Settings/Bounds.antt =====
-- internal/protocol/transitions.go and internal/projection/apply.go: the bounds of the settings.
use agent_comms.Base.{
  ℕ, ◌*◌, ◌≤◌, ◌≡◌, refl, sym, inl, inr, String, false, ◌==◌, if◌then◌else◌, Option, none, some,
  arith, eq_iff, Bool-cases,
}
use agent_comms.Base.Map.{get_or}
use agent_comms.Base.Duration.{minute, hour, parse_duration, or_zero}
use agent_comms.Model.Payloads.{Payload, ProjectSettingsUpdated, project_settings_updated}
use agent_comms.Model.State.{State, Event, effective_project_settings}
use agent_comms.Model.Zero.{zero_agent}
use agent_comms.Protocol.Result.{Platform, ok, then_ok, reject_if_ok, require_ok, ok-injective}
use agent_comms.Protocol.Settings.{check_settings, out_of_range}
use agent_comms.Protocol.Tasks.{default_lease, stale_grace}
use agent_comms.Protocol.Validate.{validate_transition}
use agent_comms.Projection.Apply.{apply_event}
use agent_comms.Projection.Governance.{apply_settings_updated}
use agent_comms.Projection.Stamp.{stamp_entity}
use agent_comms.Authority.Advance.{advance, advance_ok}

empty_duration : parse_duration "" ≡ none
unfolding parse_duration
empty_duration = refl

out_of_range-bounds :
    (low high : ℕ) (o : Option ℕ)
    → out_of_range low high o ≡ false
    → (low ≤ or_zero o) × (or_zero o ≤ high)
unfolding out_of_range
out_of_range-bounds low high none h = ground arith
out_of_range-bounds low high (some n) h = (ground arith, ground arith)

-- A text in range is not empty, so that no default replaces it.
in_range :
    (low high : ℕ) (text default : String)
    → out_of_range low high (parse_duration text) ≡ false
    → (low ≤ or_zero (parse_duration (if text == "" then default else text)))
      × (or_zero (parse_duration (if text == "" then default else text)) ≤ high)
unfolding out_of_range
in_range low high text default h = elim (Bool-cases (text == "")) [
  | inl empty ↦ absurd (ground (arith, (rw ((eq_iff text "").0 empty, empty_duration) at h)))
  | inr given ↦ rw (given) (out_of_range-bounds low high (parse_duration text) h)
]

pub record SettingsChecked (st : State) (actor : String) (p : ProjectSettingsUpdated) : Type 0 where
  pub by_human : (get_or zero_agent actor st.agents).principal_type ≡ "HUMAN"
  pub lease : out_of_range (15 * minute) (24 * hour) (parse_duration p.default_lease) ≡ false
  pub grace : out_of_range (5 * minute) (24 * hour) (parse_duration p.stale_grace) ≡ false

check_settings-SettingsChecked :
    (st : State) (actor : String) (p : ProjectSettingsUpdated)
    → check_settings st actor (project_settings_updated p) ≡ ok tt
    → SettingsChecked st actor p
unfolding check_settings
check_settings-SettingsChecked st actor p h =
    let (g1, h1) = then_ok _ _ h in
    let (g2, h2) = then_ok _ _ h1 in
    let (g3, h3) = then_ok _ _ h2 in
    record {
      by_human = (eq_iff _ _).0 (require_ok _ _ g1);
      lease = reject_if_ok _ _ g2;
      grace = reject_if_ok _ _ g3;
    }

module _ (pf : Platform) (st : State) (actor id event_id : String) (now sequence : ℕ)
    (p : ProjectSettingsUpdated) where
  abbrev pub settings_event : Event
  settings_event = record {
    id = event_id;
    sequence = sequence;
    time = now;
    actor = actor;
    typ = "project.settings.update";
    entity_id = id;
    payload = project_settings_updated p;
  }

  validate_settings :
      {q : Payload}
      → validate_transition pf st actor "project.settings.update" id
          (project_settings_updated p)
          now
        ≡ ok q
      → (check_settings st actor (project_settings_updated p) ≡ ok tt)
        × (q ≡ project_settings_updated p)
  unfolding validate_transition
  validate_settings h = ground arith

  settings_apply :
      {st' : State}
      → apply_event pf st settings_event ≡ ok st'
      → st' ≡ apply_settings_updated st settings_event p
  unfolding apply_event stamp_entity
  settings_apply h = sym (ok-injective h)

  -- A settings update that is accepted comes from a human, and in the state behind it the default
  -- lease is from 15 minutes to 24 hours and the stale grace from 5 minutes to 24 hours.
  pub settings_bound_leases :
      {st' : State}
      → advance pf st settings_event ≡ ok st'
      → ((get_or zero_agent actor st.agents).principal_type ≡ "HUMAN")
        × (15 * minute ≤ default_lease st')
        × (default_lease st' ≤ 24 * hour)
        × (5 * minute ≤ stale_grace st')
        × (stale_grace st' ≤ 24 * hour)
  unfolding default_lease stale_grace apply_settings_updated effective_project_settings
  settings_bound_leases h =
      let (q, _, valid, applied) = advance_ok pf st settings_event h in
      let (accepted, same) = validate_settings valid in
      let checked = check_settings-SettingsChecked st actor p accepted in
      let next = settings_apply (rw (same) at applied) in
      let lease = in_range (15 * minute) (24 * hour) p.default_lease _ checked.lease in
      let grace = in_range (5 * minute) (24 * hour) p.stale_grace _ checked.grace in
      rw (next) (checked.by_human, lease.0, lease.1, grace.0, grace.1)
