-- ===== src/Protocol/Settings.antt =====
-- internal/protocol/transitions.go, ValidateTransition: the project settings.
use agent_comms.Base.{ℕ, ◌*◌, String, Bool, true, not, ◌||◌, ◌==◌, Option, none, some, ltb}
use agent_comms.Base.Map.{get_or}
use agent_comms.Base.Duration.{minute, hour, parse_duration}
use agent_comms.Model.Payloads.{Payload}
use agent_comms.Model.State.{State}
use agent_comms.Model.Zero.{zero_agent}
use agent_comms.Protocol.Result.{Result, ◌>>=◌, ◌>>◌, reject_if, found}
use agent_comms.Protocol.Cast.{to_project_settings_updated}

abbrev pub max_command_bytes : ℕ
max_command_bytes = 256 * 1024

abbrev pub max_draft_storage_bytes : ℕ
max_draft_storage_bytes = 50 * 1024 * 1024

-- `err != nil || d < low || d > high`
unfoldable pub out_of_range : ℕ → ℕ → Option ℕ → Bool
out_of_range low high none = true
out_of_range low high (some d) = ltb d low || ltb high d

unfoldable pub check_settings : State → String → Payload → Result (Unit {0})
unfolding get_or out_of_range
check_settings st actor payload = do
  reject_if (not ((get_or zero_agent actor st.agents).principal_type == "HUMAN"))
      "human principal required to update project settings"
  settings ← found (to_project_settings_updated payload) "invalid project settings payload"
  reject_if (out_of_range (15 * minute) (24 * hour) (parse_duration settings.default_lease))
      "default lease must be between 15m and 24h"
  reject_if (out_of_range (5 * minute) (24 * hour) (parse_duration settings.stale_grace))
      "stale grace must be between 5m and 24h"
  reject_if (out_of_range (24 * hour) (8760 * hour) (parse_duration settings.active_retention))
      "active retention must be between 24h and 8760h"
  reject_if (ltb settings.summary_limit 256 || ltb max_command_bytes settings.summary_limit)
      "summary limit must be between 256 and 262144"
  reject_if
      (ltb settings.artifact_limit_bytes 1024
        || ltb max_draft_storage_bytes settings.artifact_limit_bytes)
      "artifact limit must be between 1024 and 52428800 bytes"
