-- ===== src/Protocol/Evidence.antt =====
-- internal/protocol/transitions.go: the evidence of a delivery, and a runtime's definition.
use agent_comms.Base.{
  ℕ, ◌+◌, ◌*◌, String, Bool, not, ◌&&◌, ◌||◌, ◌==◌, List, [], ◌∷◌, ltb, length, if◌then◌else◌,
}
use agent_comms.Base.Text.{trim_space, to_upper, to_lower, contains, has}
use agent_comms.Base.Duration.{minute}
use agent_comms.Model.Payloads.{DeliveryEvidence}
use agent_comms.Protocol.Result.{Result, ok, ◌>>=◌, ◌>>◌, reject_if}
use agent_comms.Protocol.Consumers.{runtime_kind}

abbrev pub max_delivery_evidence : ℕ
max_delivery_evidence = 8

abbrev pub command_clock_skew : ℕ
command_clock_skew = 5 * minute

abbrev pub max_runtime_concurrency : ℕ
max_runtime_concurrency = 100

unfoldable pub allowed_stages : String → List String
allowed_stages transport =
    if transport == "INTERACTIVE"
    then "PTY_TEXT_ECHOED" ∷ "PTY_ENTER_SENT" ∷ []
    else "CONNECTOR_ACCEPTED" ∷ []

unfoldable pub stage_of : DeliveryEvidence → String
unfolding trim_space to_upper
stage_of item = to_upper (trim_space item.stage)

-- The checks of one item: its stage is allowed and new, its time is in the window and not before
-- the previous item's.
unfoldable pub check_item :
    List String → ℕ → ℕ → List String → ℕ → DeliveryEvidence → Result (Unit {0})
unfolding has stage_of
check_item allowed attempted_at completed_at seen previous item = do
  reject_if (not (has allowed (stage_of item)) || has seen (stage_of item))
      "delivery evidence stage is invalid or duplicated"
  reject_if
      (ltb item.at attempted_at
        || ltb (completed_at + command_clock_skew) item.at
        || ltb item.at previous)
      "delivery evidence timestamps must be monotonic and within the attempt window"

-- The loop over the evidence; it returns the stages that were seen.
unfoldable pub check_items :
    List String → ℕ → ℕ → List String → ℕ → List DeliveryEvidence → Result (List String)
unfolding check_item
check_items allowed attempted_at completed_at seen previous [] = ok seen
check_items allowed attempted_at completed_at seen previous (item ∷ rest) =
    let later = check_items allowed attempted_at completed_at (stage_of item ∷ seen) item.at rest in
    (check_item allowed attempted_at completed_at seen previous item >> later)

unfoldable pub validate_delivery_evidence :
    String → String → List DeliveryEvidence → ℕ → ℕ → Result (Unit {0})
unfolding check_items allowed_stages has
validate_delivery_evidence transport endpoint_id evidence attempted_at completed_at = do
  reject_if (length_is_bad evidence) "delivery evidence must contain from 1 to 8 stages"
  reject_if (transport == "INTERACTIVE" && trim_space endpoint_id == "")
      "interactive delivery endpoint ID is required"
  seen ← check_items (allowed_stages transport) attempted_at completed_at [] attempted_at evidence
  reject_if
      (transport == "INTERACTIVE"
        && (not (has seen "PTY_TEXT_ECHOED") || not (has seen "PTY_ENTER_SENT")))
      "interactive delivery requires PTY_TEXT_ECHOED and PTY_ENTER_SENT evidence"
  reject_if (not (transport == "INTERACTIVE") && not (has seen "CONNECTOR_ACCEPTED"))
      "connector delivery requires CONNECTOR_ACCEPTED evidence"
  where
    length_is_bad : List DeliveryEvidence → Bool
    length_is_bad l = ltb (length l) 1 || ltb max_delivery_evidence (length l)

unfoldable pub valid_connector : String → Bool
valid_connector c =
    c == "MANUAL"
    || c == "MCP"
    || c == "LOCAL_PROCESS"
    || c == "WEBHOOK"
    || c == "QUEUE"
    || c == "INTERACTIVE"

unfoldable pub holds_secret : String → Bool
unfolding contains to_lower
holds_secret reference =
    contains (to_lower reference) "secret"
    || contains (to_lower reference) "token"
    || contains (to_lower reference) "password"

-- The checks of the two kinds, after those that both share.
unfoldable pub check_kind : String → String → String → String → ℕ → Result (Unit {0})
unfolding trim_space
check_kind kind connector config_reference host_id max_concurrent =
    if kind == "INTERACTIVE"
    then (do
      reject_if (not (connector == "INTERACTIVE"))
          "INTERACTIVE runtime kind requires the INTERACTIVE connector"
      reject_if (trim_space host_id == "") "interactive runtime host ID is required"
      reject_if (not (trim_space config_reference == ""))
          "interactive runtime must not use a connector configuration reference"
      reject_if (ltb max_concurrent 1 || ltb 1 max_concurrent)
          "interactive runtime concurrency must be 1")
    else reject_if (connector == "INTERACTIVE")
        "INTERACTIVE connector requires the INTERACTIVE runtime kind"

unfoldable pub normalize_runtime_definition :
    String → String → String → String → ℕ → Result (String × String)
unfolding trim_space to_upper runtime_kind valid_connector holds_secret check_kind
normalize_runtime_definition raw_kind raw_connector config_reference host_id max_concurrent = do
  let connector = to_upper (trim_space raw_connector)
  let kind = runtime_kind raw_kind connector
  reject_if (not (kind == "WORKER") && not (kind == "INTERACTIVE"))
      "runtime kind must be WORKER or INTERACTIVE"
  reject_if (not (valid_connector connector))
      "runtime connector must be MANUAL, MCP, LOCAL_PROCESS, WEBHOOK, QUEUE, or INTERACTIVE"
  reject_if (ltb max_concurrent 1 || ltb max_runtime_concurrency max_concurrent)
      "runtime concurrency must be from 1 to 100"
  reject_if
      ((connector == "LOCAL_PROCESS" || connector == "WEBHOOK")
        && trim_space config_reference == "")
      "runtime requires a connector configuration reference"
  reject_if (holds_secret config_reference)
      "runtime config reference must not contain secret material"
  check_kind kind connector config_reference host_id max_concurrent
  ok (kind, connector)
