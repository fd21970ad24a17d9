-- ===== src/Contracts/Errors.antt =====
-- internal/controlplane/contracts.go: the codes of errors, and ClassifyValidationError.
use agent_comms.Base.{ℕ, String, Bool, ◌&&◌, ◌||◌, if◌then◌else◌}
use agent_comms.Base.Text.{to_lower, contains}

pub data ErrorCode : Type 0 where
  offline conflict rate_limited stale_precondition unavailable : ErrorCode
  authorization validation integrity : ErrorCode

pub record ControlError : Type 0 where
  pub code : ErrorCode
  pub message : String
  pub retry_after : ℕ

abbrev names_a_standing : String → Bool
names_a_standing lower =
    contains lower "role"
    || contains lower "principal"
    || contains lower "owner"
    || contains lower "scope"

unfoldable pub classify_validation_error : String → ControlError
unfolding to_lower contains
classify_validation_error message =
    let lower = to_lower message in
    if contains lower "required" && names_a_standing lower
    then record { code = authorization; message = message; retry_after = 0 }
    else if contains lower "overlap" || contains lower "already leased"
    then record { code = conflict; message = message; retry_after = 0 }
    else record { code = validation; message = message; retry_after = 0 }
