-- ===== src/Tasks/Stranded.antt =====
-- internal/protocol/transitions.go and internal/projection/apply.go: the task that a resolved blocker
-- leaves open with its owner.
use agent_comms.Base.{ℕ, ◌⊎◌, inl, inr, ◌≡◌, refl, String, false, ◌==◌, some, arith}
use agent_comms.Base.Map.{get, get_or, get-put_self, get_or-get}
use agent_comms.Model.Payloads.{Payload, TaskStatus, TaskClaimed, task_status, task_claimed}
use agent_comms.Model.State.{State, Event, Task}
use agent_comms.Model.Zero.{zero_task}
use agent_comms.Protocol.Result.{ok, then_ok}
use agent_comms.Protocol.Tasks.{
  check_task, check_task_status, status_allowed, allowed_status, check_task_claimed,
}
use agent_comms.Projection.Messages.{unblock}

unblock_opens :
    (s : State) (e : Event) (id : String) (t : Task)
    → get id s.tasks ≡ some t
    → t.status ≡ "BLOCKED"
    → (t' : Task) × (get id (unblock s e id).tasks ≡ some t')
      × (t'.status ≡ "OPEN")
      × (t'.owner ≡ t.owner)
unfolding unblock
unblock_opens s e id t there blocked =
    rw (unblock, there, blocked) (_, get-put_self id _ s.tasks, refl, refl)

claim_refused :
    (st : State) (actor id : String) (t : Task) (now : ℕ) (p : TaskClaimed) (q : Payload)
    → (t.owner == "") ≡ false
    → ¬ (check_task_claimed st actor id t now p ≡ ok q)
unfolding check_task_claimed
claim_refused st actor id t now p q owned h = ground arith

-- The types that work on a task.
abbrev pub WorksOn : String → Type 0
WorksOn typ =
    (typ ≡ "task.start") ⊎ (typ ≡ "task.block") ⊎ (typ ≡ "task.review") ⊎ (typ ≡ "task.complete")

work_refused :
    (st : State) (actor typ id : String) (t : Task) (now : ℕ) (p : TaskStatus) (q : Payload)
    → t.status ≡ "OPEN"
    → WorksOn typ
    → ¬ (check_task_status st actor typ id t now p ≡ ok q)
unfolding check_task_status status_allowed allowed_status
work_refused st actor typ id t now p q unclaimed (inl e) h =
    ground (arith, (rw (e, unclaimed) at h))
work_refused st actor typ id t now p q unclaimed (inr (inl e)) h =
    ground (arith, (rw (e, unclaimed) at h))
work_refused st actor typ id t now p q unclaimed (inr (inr (inl e))) h =
    ground (arith, (rw (e, unclaimed) at h))
work_refused st actor typ id t now p q unclaimed (inr (inr (inr e))) h =
    ground (arith, (rw (e, unclaimed) at h))

claim_at :
    (st : State) (actor id : String) (now : ℕ) (p : TaskClaimed) {t : Task} {q : Payload}
    → get_or zero_task id st.tasks ≡ t
    → check_task st actor "task.claim" id (task_claimed p) now ≡ ok q
    → check_task_claimed st actor id t now p ≡ ok q
unfolding check_task
claim_at st actor id now p here h = rw (← here) (then_ok _ _ h).1

status_at :
    (st : State) (actor typ id : String) (now : ℕ) (p : TaskStatus) {t : Task} {q : Payload}
    → get_or zero_task id st.tasks ≡ t
    → check_task st actor typ id (task_status p) now ≡ ok q
    → check_task_status st actor typ id t now p ≡ ok q
unfolding check_task
status_at st actor typ id now p here h = rw (← here) (then_ok _ _ h).1

-- A task that is blocked and has an owner is open with the same owner after the step that a resolved
-- blocker takes; then the validator refuses every claim of it, by anybody at any time, and every start,
-- block, review and completion.
pub resolved_blocker_strands :
    (s : State) (e : Event) (id : String) (t : Task)
    → get id s.tasks ≡ some t
    → t.status ≡ "BLOCKED"
    → (t.owner == "") ≡ false
    → (t' : Task) × (get id (unblock s e id).tasks ≡ some t')
      × (t'.status ≡ "OPEN")
      × (t'.owner ≡ t.owner)
      × ((actor : String) (now : ℕ) (p : TaskClaimed) (q : Payload)
          → ¬ (check_task (unblock s e id) actor "task.claim" id (task_claimed p) now ≡ ok q))
      × ((actor typ : String) (now : ℕ) (p : TaskStatus) (q : Payload)
          → WorksOn typ
          → ¬ (check_task (unblock s e id) actor typ id (task_status p) now ≡ ok q))
resolved_blocker_strands s e id t there blocked owned =
    let (t', there', unclaimed, owner) = unblock_opens s e id t there blocked in
    let here = get_or-get zero_task id (unblock s e id).tasks there' in
    (
      t',
      there',
      unclaimed,
      owner,
      λ actor now p q h.
          claim_refused (unblock s e id) actor id t' now p q (rw (owner) owned)
            (claim_at (unblock s e id) actor id now p here h),
      λ actor typ now p q w h.
          work_refused (unblock s e id) actor typ id t' now p q unclaimed w
            (status_at (unblock s e id) actor typ id now p here h),
    )
