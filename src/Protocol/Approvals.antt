-- ===== src/Protocol/Approvals.antt =====
-- internal/protocol/transitions.go: approvals that authorise an operation.
use Prim.Native.String.{◌++◌, compare}
use text.Mathlib.Text.{is_lt}
use agent_comms.Base.{
  ℕ, String, Bool, true, false, not, ◌&&◌, ◌||◌, ◌==◌, Option, none, some, [], ◌∷◌, ltb,
  if◌then◌else◌, any,
}
use agent_comms.Base.Map.{Map, get, get_or}
use agent_comms.Base.Text.{cut_prefix}
use agent_comms.Model.Payloads.{Payload, ApprovalRequested, agent_activated, agent_role_switched}
use agent_comms.Model.State.{State, Agent, Approval}
use agent_comms.Model.Zero.{zero_agent, zero_approval}
use agent_comms.Protocol.Result.{Platform}
use agent_comms.Protocol.Standing.{role_orchestrator}

-- `expires != nil && !expires.After(now)`
unfoldable pub has_expired : Option ℕ → ℕ → Bool
has_expired none now = false
has_expired (some t) now = not (ltb now t)

-- `expires != nil && expires.After(now)`
unfoldable pub runs_later : Option ℕ → ℕ → Bool
runs_later none now = false
runs_later (some t) now = ltb now t

abbrev text_lt : String → String → Bool
text_lt a b = is_lt (compare a b)

-- One turn of the loop: the least eligible ID so far, and whether a match had expired.
abbrev pub choose : String → ℕ → String × Approval → String × Bool → String × Bool
unfolding has_expired
choose action now (id, a) (chosen, expired) =
    if not (a.action == action) || not (a.status == "APPROVED")
    then (chosen, expired)
    else if has_expired a.expires_at now
    then (chosen, true)
    else if chosen == "" || text_lt id chosen
    then (id, expired)
    else (chosen, expired)

unfoldable pub choose_all : String → ℕ → Map Approval → String × Bool → String × Bool
choose_all action now [] acc = acc
choose_all action now (entry ∷ rest) acc = choose_all action now rest (choose action now entry acc)

unfoldable pub eligible_action_approval_id : State → String → ℕ → String × Bool
unfolding choose_all
eligible_action_approval_id st action now = choose_all action now st.approvals ("", false)

unfoldable pub approval_subject_digest : Platform → String → String → String → Payload → String
approval_subject_digest pf actor typ id payload =
    pf.sha256_hex (pf.subject_json actor typ id payload)

unfoldable pub bound_approval : String → String → String → ℕ → Approval → Bool
unfolding runs_later
bound_approval action digest required_tier now a =
    a.action == action
    && a.status == "APPROVED"
    && a.subject_digest == digest
    && runs_later a.expires_at now
    && (required_tier == "" || a.tier == required_tier)

unfoldable pub has_bound_approval : State → String → String → String → ℕ → Bool
unfolding bound_approval any
has_bound_approval st action digest required_tier now =
    any (λ entry. bound_approval action digest required_tier now entry.1) st.approvals

unfoldable pub orchestrator_grant_approval_action : String → String
orchestrator_grant_approval_action id = "agent.activate:" ++ id

unfoldable pub orchestrator_grant_approval_id : String → String
orchestrator_grant_approval_id id = "grant-orchestrator-" ++ id

-- The approval that stands under the conventional ID authorises the grant.
unfoldable pub grants_orchestrator : String → ℕ → Approval → Bool
unfolding has_expired orchestrator_grant_approval_action
grants_orchestrator principal_id now a =
    a.tier == "HUMAN"
    && a.status == "APPROVED"
    && a.action == orchestrator_grant_approval_action principal_id
    && not (has_expired a.expires_at now)

unfoldable pub has_orchestrator_grant_approval : State → String → ℕ → Bool
unfolding get grants_orchestrator orchestrator_grant_approval_id
has_orchestrator_grant_approval st principal_id now =
    elim (get (orchestrator_grant_approval_id principal_id) st.approvals) [
      | none ↦ false
      | some a ↦ grants_orchestrator principal_id now a
    ]

unfoldable pub names_grant : String → Option String → Bool
unfolding orchestrator_grant_approval_id
names_grant id none = false
names_grant id (some principal_id) =
    not (principal_id == "") && id == orchestrator_grant_approval_id principal_id

unfoldable pub can_replace_orchestrator_grant_approval :
    String → Approval → ApprovalRequested → ℕ → Bool
unfolding has_expired names_grant cut_prefix
can_replace_orchestrator_grant_approval id existing request now =
    let expired = has_expired existing.expires_at now in
    let recoverable =
      existing.status == "CONSUMED"
      || (expired && (existing.status == "PENDING" || existing.status == "APPROVED")) in
    if not recoverable
      || not (existing.tier == "HUMAN")
      || not (request.tier == "HUMAN")
      || not (existing.action == request.action)
    then false
    else names_grant id (cut_prefix request.action "agent.activate:")

abbrev activates_orchestrator : Payload → Bool
activates_orchestrator (agent_activated p) = p.role == role_orchestrator
activates_orchestrator _ = false

abbrev switches_orchestrator : Payload → Bool
switches_orchestrator (agent_role_switched p) = p.role == role_orchestrator
switches_orchestrator _ = false

abbrev deletes_revoked : Option Agent → Bool
deletes_revoked none = false
deletes_revoked (some target) = target.status == "REVOKED"

unfoldable pub requires_elevated_key : State → String → String → String → Payload → Bool
unfolding get get_or
requires_elevated_key st actor typ id payload =
    if typ == "agent.activate"
    then activates_orchestrator payload
    else if typ == "agent.switch-role"
    then switches_orchestrator payload
    else if typ == "approval.approve"
    then (get_or zero_approval id st.approvals).tier == "HUMAN"
    else if typ == "agent.revoke"
    then (if id == actor
        then false
        else let target = get_or zero_agent id st.agents in
          target.role == role_orchestrator || target.principal_type == "HUMAN")
    else if typ == "agent.delete"
    then deletes_revoked (get id st.agents)
    else false
