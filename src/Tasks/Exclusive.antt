-- ===== src/Tasks/Exclusive.antt =====
-- internal/protocol/transitions.go and internal/projection/apply.go: an accepted claim from end to end.

use agent_comms.Base.{ℕ, ◌+◌, ◌≡◌, refl, String, some}
use agent_comms.Base.Map.{get, get_or}
use agent_comms.Model.Payloads.{TaskClaimed, task_claimed, Payload}
use agent_comms.Model.State.{State, Task, Event}
use agent_comms.Model.Zero.{zero_task}
use agent_comms.Protocol.Result.{Platform, ok, then_ok, ok-injective}
use agent_comms.Protocol.Tasks.{default_lease, stale_grace, check_task, claim_worktree}
use agent_comms.Authority.Advance.{advance, advance_ok}
use agent_comms.Protocol.Validate.{validate_transition}
use agent_comms.Protocol.Validate.Inversion.{validate_claim}
use agent_comms.Projection.Apply.{apply_event}
use agent_comms.Projection.Tasks.{apply_task_claimed}
use agent_comms.Projection.Stamp.{get-update-put, stamp_entity}
use agent_comms.Tasks.Claim.{ClaimChecked, check_task_claimed-ClaimChecked}

module _ (pf : Platform) (st : State) (actor id event_id : String) (now sequence : ℕ)
    (p : TaskClaimed) where
  abbrev pub claim_event : Event
  claim_event = record {
    id = event_id;
    sequence = sequence;
    time = now;
    actor = actor;
    typ = "task.claim";
    entity_id = id;
    payload = task_claimed p;
  }

  claim_checks :
      {q : Payload}
      → validate_transition pf st actor "task.claim" id (task_claimed p) now ≡ ok q
      → ClaimChecked st actor id now p q
  unfolding check_task
  claim_checks h =
      check_task_claimed-ClaimChecked st actor id now p
        (then_ok _ _ (validate_claim pf st actor id (task_claimed p) now h).1).1

  -- The task after the claim.
  pub record Claimed (t' : Task) : Type 0 where
    pub owned : t'.owner ≡ actor
    pub claimed : t'.status ≡ "CLAIMED"
    pub leased : t'.lease_until ≡ now + default_lease st
    pub graced : t'.stale_until ≡ now + default_lease st + stale_grace st

  claim_applies :
      {st' : State}
      → apply_event pf st (record claim_event {
        payload = task_claimed (record p {
          lease_until = now + default_lease st;
          worktree = claim_worktree (get_or zero_task id st.tasks) p;
        });
      })
        ≡ ok st'
      → (t' : Task) × (get id st'.tasks ≡ some t') × Claimed t'
  unfolding apply_event apply_task_claimed stamp_entity
  claim_applies h = rw (← ok-injective h) (
    _,
    get-update-put id _ _ st.tasks,
    record { owned = refl; claimed = refl; leased = refl; graced = refl },
  )

  -- A claim that is accepted finds a task that nobody owns and whose paths lie in the actor's scopes;
  -- every other held task that overlaps it shares by an approval, and no other actor holds a live
  -- lease of the worktree, if one is named. After it the actor owns the task, claimed, for the lease
  -- and the grace of the settings.
  pub claim_exclusive :
      {st' : State}
      → advance pf st claim_event ≡ ok st'
      → (q : Payload) × ClaimChecked st actor id now p q
        × (t' : Task) × (get id st'.tasks ≡ some t')
        × Claimed t'
  claim_exclusive h =
      let (q, _, valid, applied) = advance_ok pf st claim_event h in
      let checked = claim_checks valid in
      let (t', there, claimed) = claim_applies (rw checked.normal at applied) in
      (q, checked, t', there, claimed)
