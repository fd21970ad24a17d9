-- ===== src/Projection/Consume.antt =====
-- internal/projection/apply.go: approvals are spent by the events that they authorise.
use Prim.Native.String.{compare}
use text.Mathlib.Text.{is_lt}
use agent_comms.Base.{ℕ, String, Bool, not, ◌&&◌, ◌==◌, Option, none, some, [], ◌∷◌, if◌then◌else◌}
use agent_comms.Base.Map.{Map, get, put}
use agent_comms.Model.State.{State, Approval, Event}
use agent_comms.Protocol.Result.{Result, ok, err}
use agent_comms.Protocol.Approvals.{has_expired, orchestrator_grant_approval_id}
use agent_comms.Projection.Stamp.{stamp_clock}

abbrev pub consumed : Event → Approval → Approval
consumed e a = record a { status = "CONSUMED"; clock = stamp_clock a.clock e }

unfoldable pub consume_orchestrator_grant_approval : State → String → Event → State
unfolding get put orchestrator_grant_approval_id
consume_orchestrator_grant_approval s principal_id e =
    let approval_id = orchestrator_grant_approval_id principal_id in
    elim (get approval_id s.approvals) [
      | none ↦ s
      | some a ↦ record s { approvals = put approval_id (consumed e a) s.approvals }
    ]

abbrev lesser : String → Option String → String
lesser id none = id
lesser id (some best) = if is_lt (compare id best) then id else best

-- The first of the sorted IDs of the approved records for the action.
unfoldable pub first_approved : String → Map Approval → Option String
first_approved action [] = none
first_approved action ((id, a) ∷ rest) =
    let later = first_approved action rest in
    if a.action == action && a.status == "APPROVED" then some (lesser id later) else later

unfoldable pub consume_at : State → Event → String → State
unfolding get put
consume_at s e id = elim (get id s.approvals) [
  | none ↦ s
  | some a ↦ record s { approvals = put id (consumed e a) s.approvals }
]

unfoldable pub consume_approved_action : State → String → Event → State
unfolding first_approved consume_at
consume_approved_action s action e = elim (first_approved action s.approvals) [
  | none ↦ s
  | some id ↦ consume_at s e id
]

unfoldable pub is_spendable : String → ℕ → Approval → Bool
unfolding has_expired
is_spendable action time a =
    a.action == action && a.status == "APPROVED" && not (has_expired a.expires_at time)

unfoldable pub consume_named_approved_action : State → String → String → Event → Result State
unfolding get put is_spendable
consume_named_approved_action s id action e = elim (get id s.approvals) [
  | none ↦ err "takeover approval is missing, expired, or not approved"
  | some a ↦
      if is_spendable action e.time a
      then ok (record s { approvals = put id (consumed e a) s.approvals })
      else err "takeover approval is missing, expired, or not approved"
]
