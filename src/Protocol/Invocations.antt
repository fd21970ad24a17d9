-- ===== src/Protocol/Invocations.antt =====
-- internal/protocol/transitions.go, ValidateTransition: the `invocation.` block.
pub mod Request
pub mod Delivery
pub mod Work
use agent_comms.Base.{ℕ, String, Bool, true, false, Option, none, some}
use agent_comms.Base.Map.{get, get_or}
use agent_comms.Model.Payloads.{
  Payload, invocation_requested, invocation_delivery_attempted, invocation_notified,
  invocation_claimed, invocation_progress, invocation_waiting, invocation_completed,
  invocation_rejected, invocation_delivery_failed,
}
use agent_comms.Model.State.{State, Invocation}
use agent_comms.Model.Zero.{zero_invocation}
use agent_comms.Protocol.Result.{Platform, Result, ok, err}
use Request.{check_invocation_requested}
use Delivery.{
  check_invocation_delivery_attempted, check_invocation_notified, check_invocation_delivery_failed,
}
use Work.{
  check_invocation_claimed, check_invocation_progress, check_invocation_waiting,
  check_invocation_completed, check_invocation_rejected,
}

abbrev is_there {ℓ} : {A : Type ℓ} → Option A → Bool
is_there none = false
is_there (some _) = true

unfoldable pub switch_invocation :
    Platform → State → String → String → String → Invocation → Bool → Payload → ℕ → Result Payload
switch_invocation pf st actor typ id i exists (invocation_requested p) now =
    check_invocation_requested pf st actor typ id exists p now
switch_invocation pf st actor typ id i exists (invocation_delivery_attempted p) now =
    check_invocation_delivery_attempted st actor id i exists p now
switch_invocation pf st actor typ id i exists (invocation_notified p) now =
    check_invocation_notified st actor id i exists p now
switch_invocation pf st actor typ id i exists (invocation_claimed p) now =
    check_invocation_claimed st actor i exists p now
switch_invocation pf st actor typ id i exists (invocation_progress p) now =
    check_invocation_progress actor typ i exists p
switch_invocation pf st actor typ id i exists (invocation_waiting p) now =
    check_invocation_waiting actor i exists p now
switch_invocation pf st actor typ id i exists (invocation_completed p) now =
    check_invocation_completed st actor i exists p
switch_invocation pf st actor typ id i exists (invocation_rejected p) now =
    check_invocation_rejected st actor typ i exists p now
switch_invocation pf st actor typ id i exists (invocation_delivery_failed p) now =
    check_invocation_delivery_failed st actor id i exists p now
switch_invocation pf st actor typ id i exists payload now = err "invalid invocation payload"

unfoldable pub check_invocation :
    Platform → State → String → String → String → Payload → ℕ → Result Payload
unfolding get get_or switch_invocation
check_invocation pf st actor typ id payload now =
    switch_invocation pf st actor typ id (get_or zero_invocation id st.invocations)
      (is_there (get id st.invocations)) payload now
