-- ===== src/Tests/SettingsTests.antt =====
-- Settings and paths.
use agent_comms.Base.{◌*◌, ◌≤◌, ◌≡◌, refl, false, [], ◌∷◌}
use agent_comms.Base.Map.{get_or}
use agent_comms.Base.Duration.{minute, hour}
use agent_comms.Model.Payloads.{ProjectSettingsUpdated}
use agent_comms.Model.State.{State}
use agent_comms.Model.Zero.{zero_agent}
use agent_comms.Protocol.Result.{ok}
use agent_comms.Protocol.Scopes.{overlap}
use agent_comms.Protocol.Tasks.{default_lease, stale_grace}
use agent_comms.Authority.Advance.{advance}
use agent_comms.Settings.Bounds.{settings_event, settings_bound_leases}
use agent_comms.Settings.Paths.{overlap_comm}
use agent_comms.Tests.Fixtures.{platform, project, after, run}

abbrev new_settings : ProjectSettingsUpdated
new_settings = record {
  default_lease = "1h30m";
  stale_grace = "10m";
  active_retention = "720h";
  summary_limit = 2048;
  artifact_limit_bytes = 4096;
  require_review = false;
}

abbrev updated : State
unfolding run
updated =
    after project
      (run project (settings_event platform project "ana" "settings" "evt-3" 1000 3 new_settings))

update_accepted :
    advance platform project
      (settings_event platform project "ana" "settings" "evt-3" 1000 3 new_settings)
    ≡ ok updated
unfolding run
update_accepted = refl

settings_bound_leases_example :
    ((get_or zero_agent "ana" project.agents).principal_type ≡ "HUMAN")
    × (15 * minute ≤ default_lease updated)
    × (default_lease updated ≤ 24 * hour)
    × (5 * minute ≤ stale_grace updated)
    × (stale_grace updated ≤ 24 * hour)
settings_bound_leases_example =
    settings_bound_leases platform project "ana" "settings" "evt-3" 1000 3 new_settings
      update_accepted

overlap_comm_example :
    overlap ("src/api" ∷ "docs" ∷ []) ("src" ∷ []) ≡ overlap ("src" ∷ []) ("src/api" ∷ "docs" ∷ [])
overlap_comm_example = overlap_comm ("src/api" ∷ "docs" ∷ []) ("src" ∷ [])
