-- ===== src/Projection/Tasks.antt =====
-- internal/projection/apply.go: the cases of tasks.
use Prim.Native.String.{◌++◌}
use agent_comms.Base.{◌+◌, String, true, not, ◌&&◌, ◌==◌, some, List, [], ◌∷◌, map, if◌then◌else◌}
use agent_comms.Base.Map.{get_or, put}
use agent_comms.Base.Text.{to_upper}
use agent_comms.Model.Payloads.{
  TaskCreated, TaskOffered, TaskClaimed, TaskRenewed, TaskHandoff, TaskStatus, ArchiveRun,
}
use agent_comms.Model.State.{State, Task, Offer, Event}
use agent_comms.Model.Zero.{zero_task}
use agent_comms.Protocol.Result.{Result, ok, ◌>>=◌}
use agent_comms.Protocol.Tasks.{default_lease, stale_grace}
use agent_comms.Projection.Stamp.{stamp_clock}
use agent_comms.Projection.Consume.{consume_named_approved_action, consume_approved_action}

unfoldable pub set_task : State → String → (Task → Task) → State
unfolding get_or put
set_task s id f = record s { tasks = put id (f (get_or zero_task id s.tasks)) s.tasks }

unfoldable pub default_risk : String → String
default_risk v = if v == "" then "ROUTINE" else to_upper v

unfoldable pub apply_task_created : State → Event → TaskCreated → State
unfolding put default_risk
apply_task_created s e p = record s {
  tasks =
      put e.entity_id
        (record zero_task {
          id = e.entity_id;
          title = p.title;
          summary = p.summary;
          status = "OPEN";
          repository = p.repository;
          branch = p.branch;
          worktree = p.worktree;
          resources = p.resources;
          external_ref = p.external_ref;
          risk = default_risk p.risk;
        })
        s.tasks;
}

append_offer : List Offer → Offer → List Offer
append_offer [] o = o ∷ []
append_offer (x ∷ xs) o = x ∷ append_offer xs o

unfoldable pub apply_task_offered : State → Event → TaskOffered → State
unfolding set_task append_offer
apply_task_offered s e p = set_task s e.entity_id (λ t. record t {
  status = "OFFERED";
  offers =
      append_offer t.offers
        (record { id = e.id; to = p.to; expires_at = p.expires_at; status = "PENDING" });
})

unfoldable pub accept_offer : String → Offer → Offer
accept_offer actor o =
    if o.to == actor && o.status == "PENDING" then record o { status = "ACCEPTED" } else o

unfoldable pub claim_task : State → Event → TaskClaimed → Task → Task
unfolding accept_offer
claim_task s e p t = record t {
  owner = e.actor;
  status = "CLAIMED";
  lease_until = p.lease_until;
  stale_until = p.lease_until + stale_grace s;
  worktree = if not (p.worktree == "") then p.worktree else t.worktree;
  offers = map (accept_offer e.actor) t.offers;
}

unfoldable pub apply_task_claimed : State → Event → TaskClaimed → State
unfolding set_task claim_task
apply_task_claimed s e p = set_task s e.entity_id (claim_task s e p)

unfoldable pub apply_task_renewed : State → Event → TaskRenewed → State
unfolding set_task
apply_task_renewed s e p =
    set_task s e.entity_id
      (λ t. record t { lease_until = p.lease_until; stale_until = p.lease_until + stale_grace s })

unfoldable pub apply_task_handoff : State → Event → TaskHandoff → State
unfolding set_task
apply_task_handoff s e p = set_task s e.entity_id (λ t. record t { handoff_to = p.to })

-- The inner switch on the type, with the lease of a takeover under the settings of `s`.
unfoldable pub move_task : State → Event → Task → Task
move_task s e t =
    if e.typ == "task.start"
    then record t { status = "IN_PROGRESS" }
    else if e.typ == "task.block"
    then record t { status = "BLOCKED" }
    else if e.typ == "task.review"
    then record t { status = "REVIEW" }
    else if e.typ == "task.complete"
    then record t { status = "COMPLETED"; completed_at = some e.time }
    else if e.typ == "task.cancel"
    then record t { status = "CANCELLED" }
    else if e.typ == "task.handoff.accept"
    then record t { owner = e.actor; handoff_to = "" }
    else if e.typ == "task.takeover"
    then record t {
      owner = e.actor;
      status = "CLAIMED";
      lease_until = e.time + default_lease s;
      stale_until = e.time + default_lease s + stale_grace s;
    }
    else t

-- The approval that a takeover spends; events of old histories name none.
unfoldable pub spend_takeover : State → Event → TaskStatus → Result State
spend_takeover s e p =
    if not (e.typ == "task.takeover")
    then ok s
    else if not (p.approval_id == "")
    then consume_named_approved_action s p.approval_id ("task.takeover:" ++ e.entity_id) e
    else ok (consume_approved_action s ("task.takeover:" ++ e.entity_id) e)

unfoldable pub apply_task_status : State → Event → TaskStatus → Result State
unfolding set_task move_task spend_takeover
apply_task_status s e p = do
  spent ← spend_takeover s e p
  ok (set_task spent e.entity_id (move_task s e))

archive : State → Event → List String → State
unfolding set_task
archive s e [] = s
archive s e (id ∷ rest) =
    archive (set_task s id (λ t. record t { archived = true; clock = stamp_clock t.clock e })) e
      rest

unfoldable pub apply_archive_run : State → Event → ArchiveRun → State
unfolding archive
apply_archive_run s e p = archive s e p.task_ids
