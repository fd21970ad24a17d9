-- ===== src/Protocol/Governance.antt =====
-- internal/protocol/transitions.go, ValidateTransition: invocation policies, documents, approvals,
-- providers and the environment.
use Prim.Native.String.{◌++◌}
use text.Mathlib.Text.{starts_with}
use agent_comms.Base.{
  ℕ, String, Bool, true, false, not, ◌&&◌, ◌||◌, ◌==◌, Option, none, some, List, [], ◌∷◌,
  if◌then◌else◌, is_empty, any,
}
use agent_comms.Base.Map.{get}
use agent_comms.Base.Text.{trim_space, to_upper, has}
use agent_comms.Model.Payloads.{
  Payload, DocumentPayload, ApprovalRequested, invocation_policy_updated,
}
use agent_comms.Model.State.{State, Approval}
use agent_comms.Model.Providers.{
  is_built_in_provider, validate_provider_name, validate_provider_text,
}
use agent_comms.Protocol.Result.{Platform, Result, ok, err, ◌>>=◌, ◌>>◌, reject_if, found}
use agent_comms.Protocol.Standing.{actor_elevated}
use agent_comms.Protocol.Approvals.{
  has_expired, runs_later, can_replace_orchestrator_grant_approval,
}
use agent_comms.Protocol.Consumers.{runtime_kind, valid_consumer_mode, all_consumer_modes}
use agent_comms.Protocol.Messages.{is_active}
use agent_comms.Protocol.Cast.{
  to_invocation_policy_updated, to_document_payload, to_approval_requested, to_provider_registered,
  to_provider_retired, to_env_set_payload, to_env_delete_payload,
}

abbrev is_there {ℓ} : {A : Type ℓ} → Option A → Bool
is_there none = false
is_there (some _) = true

abbrev accept {ℓ} : {A : Type ℓ} → Option String → A → Result A
accept none a = ok a
accept (some message) a = err message

unfoldable pub check_trusted : State → List String → Result (Unit {0})
check_trusted st [] = ok tt
check_trusted st (x ∷ rest) =
    let later = check_trusted st rest in
    if is_active st x then later else err ("trusted actor " ++ (x ++ " is not active"))

-- The modes in their normal form; each is valid and none comes twice.
unfoldable pub normalize_modes : List String → List String → Result (List String)
unfolding trim_space to_upper has valid_consumer_mode
normalize_modes seen [] = ok []
normalize_modes seen (raw ∷ rest) =
    let mode = to_upper (trim_space raw) in
    let later = normalize_modes (mode ∷ seen) rest in
    if not (valid_consumer_mode mode) || has seen mode
    then err "allowed consumer modes must be unique INTERACTIVE_ONLY, WORKER_ONLY, or EITHER values"
    else (later >>= λ modes. ok (mode ∷ modes))

unfoldable pub check_interactive_runtime : State → String → String → Result (Unit {0})
unfolding get runtime_kind
check_interactive_runtime st id runtime_id = if runtime_id == "" then ok tt else (do
  preferred ←
      found (get runtime_id st.runtimes)
        "preferred interactive runtime must be a non-revoked interactive runtime owned by the target"
  reject_if
      (not (preferred.agent_id == id)
        || not (runtime_kind preferred.kind preferred.connector == "INTERACTIVE")
        || preferred.status == "REVOKED")
      "preferred interactive runtime must be a non-revoked interactive runtime owned by the target")

unfoldable pub check_policy_update : State → String → String → Payload → Result Payload
unfolding get trim_space to_upper valid_consumer_mode has
check_policy_update st actor id payload = do
  policy ←
      found (to_invocation_policy_updated payload)
        "active agent invocation policy target is required"
  target ← found (get id st.agents) "active agent invocation policy target is required"
  reject_if (not (target.status == "ACTIVE") || not (target.principal_type == "AGENT"))
      "active agent invocation policy target is required"
  reject_if (not (actor_elevated st actor))
      "owner or orchestrator required to update invocation policy"
  let mode = to_upper (trim_space policy.mode)
  reject_if
      (not (mode == "MANUAL")
        && not (mode == "TRUSTED")
        && not (mode == "AUTOMATIC")
        && not (mode == "DISABLED"))
      "invocation policy must be MANUAL, TRUSTED, AUTOMATIC, or DISABLED"
  check_trusted st policy.trusted_actors
  let default_mode = to_upper (
      trim_space
        (if policy.default_consumer_mode == "" then "EITHER" else policy.default_consumer_mode))
  reject_if (not (valid_consumer_mode default_mode))
      "default consumer mode must be INTERACTIVE_ONLY, WORKER_ONLY, or EITHER"
  modes ← normalize_modes [] (
      if is_empty policy.allowed_consumer_modes
      then all_consumer_modes
      else policy.allowed_consumer_modes)
  reject_if (not (has modes default_mode))
      "default consumer mode must be included in allowed consumer modes"
  check_interactive_runtime st id policy.preferred_interactive_runtime_id
  ok (
      invocation_policy_updated (record policy {
        mode = mode;
        default_consumer_mode = default_mode;
        allowed_consumer_modes = modes;
      }))

unfoldable pub blank_content : DocumentPayload → Bool
unfolding trim_space
blank_content p = trim_space p.title == "" || trim_space p.body == ""

unfoldable pub check_document : State → String → String → Payload → Result (Unit {0})
unfolding get blank_content
check_document st typ id payload = do
  p ← found (to_document_payload payload) "document payload is required"
  if typ == "document.create"
      then (do
        reject_if (blank_content p) "title and body are required"
        reject_if (is_there (get id st.documents)) "document already exists")
      else if typ == "document.update" || typ == "document.supersede"
      then (do
        reject_if (not (is_there (get id st.documents))) "document not found"
        reject_if (typ == "document.update" && blank_content p) "title and body are required"
        reject_if
            (typ == "document.supersede" && (p.replacement_id == "" || p.replacement_id == id))
            "a different replacement document is required"
        reject_if
            (typ == "document.supersede" && not (is_there (get p.replacement_id st.documents)))
            "replacement document not found")
      else ok tt

unfoldable pub is_bound_action : String → Bool
is_bound_action action =
    starts_with action "contract:"
    || starts_with action "invocation:"
    || starts_with action "invocation-sensitive:"

unfoldable pub replaceable : String → ApprovalRequested → ℕ → Option Approval → Bool
replaceable id request now none = true
replaceable id request now (some existing) =
    can_replace_orchestrator_grant_approval id existing request now

unfoldable pub check_approval_request : Platform → State → String → Payload → ℕ → Result (Unit {0})
unfolding get trim_space has_expired runs_later is_bound_action replaceable
check_approval_request pf st id payload now = do
  request ← found (to_approval_requested payload) "approval tier and action are required"
  reject_if
      ((not (request.tier == "ORCHESTRATOR") && not (request.tier == "HUMAN"))
        || trim_space request.action == "")
      "approval tier and action are required"
  reject_if (has_expired request.expires_at now) "approval expiry must be in the future"
  reject_if
      (is_bound_action request.action
        && (request.subject == ""
            || request.subject_digest == ""
            || not (request.subject_digest == pf.sha256_hex request.subject)
            || not (runs_later request.expires_at now)))
      "contract and invocation approvals require a subject digest and future expiry"
  reject_if (not (replaceable id request now (get id st.approvals))) "approval already exists"

unfoldable pub check_approval_response : State → String → Result (Unit {0})
unfolding get
check_approval_response st id = do
  approval ← found (get id st.approvals) "pending approval is required"
  reject_if (not (approval.status == "PENDING")) "pending approval is required"

unfoldable pub collides : State → String → Bool
unfolding any
collides st id = any (λ entry. entry.0 == id || starts_with entry.0 (id ++ "-")) st.agents

unfoldable pub check_provider_register : State → String → Payload → Result (Unit {0})
unfolding get collides
check_provider_register st id payload = do
  registered ← found (to_provider_registered payload) "invalid provider registration payload"
  accept (validate_provider_name id) tt
  accept (validate_provider_text "display name" registered.display_name 64) tt
  accept (validate_provider_text "description" registered.description 512) tt
  elim (get id st.providers) [
    | none ↦ reject_if (collides st id) "provider name collides with existing principal"
    | some existing ↦ reject_if (existing.status == "ACTIVE") "provider is already registered"
  ]

unfoldable pub check_provider_retire : State → String → Payload → Result (Unit {0})
unfolding get trim_space
check_provider_retire st id payload = do
  retired ← found (to_provider_retired payload) "invalid provider retirement payload"
  reject_if (is_built_in_provider id) "is a built-in provider and cannot be retired"
  existing ← found (get id st.providers) "provider is not registered"
  reject_if (not (existing.status == "ACTIVE")) "provider is already retired"
  reject_if (trim_space retired.reason == "") "retirement reason is required"
  accept (validate_provider_text "retirement reason" retired.reason 512) tt

unfoldable pub check_env : String → Payload → Result (Unit {0})
unfolding trim_space
check_env typ payload =
    if typ == "env.set"
    then (do
      p ← found (to_env_set_payload payload) "environment payload is required"
      reject_if (trim_space p.key == "") "key is required")
    else if typ == "env.delete"
    then (do
      p ← found (to_env_delete_payload payload) "environment payload is required"
      reject_if (p.key == "") "key is required")
    else ok tt
