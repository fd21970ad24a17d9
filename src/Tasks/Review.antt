-- ===== src/Tasks/Review.antt =====
-- internal/protocol/transitions.go and internal/projection/apply.go: the completion of a task, and the
-- task that a resolved blocker leaves.
use agent_comms.Base.{
  ℕ, ◌≡◌, refl, inl, inr, String, true, ◌||◌, ◌==◌, ◌⊎◌, some, arith, eq_iff, Bool-cases,
}
use agent_comms.Base.Map.{get, get_or}
use agent_comms.Model.Payloads.{Payload, TaskStatus, task_status}
use agent_comms.Model.State.{State, Event, Task}
use agent_comms.Model.Zero.{zero_task, zero_agent}
use agent_comms.Protocol.Result.{Platform, ok, then_ok, ok-injective}
use agent_comms.Protocol.Standing.{governs}
use agent_comms.Protocol.Tasks.{
  check_task, check_task_status, needs_review, name_approval, status_allowed, allowed_status,
}
use agent_comms.Protocol.Validate.Inversion.{validate_complete}
use agent_comms.Projection.Apply.{apply_event}
use agent_comms.Projection.Tasks.{apply_task_status, spend_takeover, move_task}
use agent_comms.Projection.Stamp.{stamp_entity, get-update-put}
use agent_comms.Authority.Advance.{advance, advance_ok}

-- What a completion was checked for.
pub record CompletionChecked (st : State) (actor : String) (t : Task) (p : TaskStatus) (q : Payload)
    : Type 0 where
  pub from : (t.status == "IN_PROGRESS" || t.status == "REVIEW") ≡ true
  pub reviewed : needs_review st t ≡ true → t.status ≡ "REVIEW"
  pub by_reviewer :
      needs_review st t ≡ true → governs (get_or zero_agent actor st.agents).role ≡ true
  pub by_owner :
      (t.owner ≡ "") ⊎ (t.owner ≡ actor) ⊎ (governs (get_or zero_agent actor st.agents).role ≡ true)
  pub unnamed : p.approval_id ≡ ""
  pub normal : q ≡ task_status p

check_task_status-CompletionChecked :
    (st : State) (actor id : String) (t : Task) (now : ℕ) (p : TaskStatus) {q : Payload}
    → check_task_status st actor "task.complete" id t now p ≡ ok q
    → CompletionChecked st actor t p q
unfolding check_task_status name_approval allowed_status status_allowed
check_task_status-CompletionChecked st actor id t now p h = record {
  from = ground (
    arith,
    eq_iff t.status "IN_PROGRESS",
    eq_iff t.status "REVIEW",
    eq_iff "IN_PROGRESS" t.status,
    eq_iff "REVIEW" t.status,
  );
  reviewed = λ n. ground (arith, eq_iff t.status "REVIEW");
  by_reviewer = λ n. ground arith;
  by_owner = elim (Bool-cases (t.owner == "")) [
    | inl none_owns ↦ inl ((eq_iff _ _).0 none_owns)
    | inr owned ↦ elim (Bool-cases (t.owner == actor)) [
      | inl own ↦ inr (inl ((eq_iff _ _).0 own))
      | inr other ↦ inr (inr (ground arith))
    ]
  ];
  unnamed = ground (arith, eq_iff p.approval_id "");
  normal = ground arith;
}

module _ (pf : Platform) (st : State) (actor id event_id : String) (now sequence : ℕ)
    (p : TaskStatus) where
  abbrev pub completion_event : Event
  completion_event = record {
    id = event_id;
    sequence = sequence;
    time = now;
    actor = actor;
    typ = "task.complete";
    entity_id = id;
    payload = task_status p;
  }

  completion_checks :
      {q : Payload}
      → check_task st actor "task.complete" id (task_status p) now ≡ ok q
      → CompletionChecked st actor (get_or zero_task id st.tasks) p q
  unfolding check_task
  completion_checks h = check_task_status-CompletionChecked st actor id _ now p (then_ok _ _ h).1

  pub record Completed (st' : State) : Type 0 where
    pub task : Task
    pub there : get id st'.tasks ≡ some task
    pub completed : task.status ≡ "COMPLETED"
    pub at_time : task.completed_at ≡ some now
    pub same_owner : task.owner ≡ (get_or zero_task id st.tasks).owner

  completion_applies : {st' : State} → apply_event pf st completion_event ≡ ok st' → Completed st'
  unfolding apply_event apply_task_status spend_takeover move_task stamp_entity
  completion_applies h = rw (← ok-injective h) (record {
    task = _;
    there = get-update-put id _ _ st.tasks;
    completed = refl;
    at_time = refl;
    same_owner = refl;
  })

  -- A completion that is accepted finds the task in progress or in review; its actor is the owner or has
  -- a governing role, unless nobody owns the task. A task that needs review was in review, and an
  -- actor with a governing role completed it. After it the task is completed at that time and has the
  -- same owner.
  pub completion_reviewed :
      {st' : State}
      → advance pf st completion_event ≡ ok st'
      → (q : Payload) × CompletionChecked st actor (get_or zero_task id st.tasks) p q
        × Completed st'
  completion_reviewed h =
      let (q, _, valid, applied) = advance_ok pf st completion_event h in
      let checked =
        completion_checks (validate_complete pf st actor id (task_status p) now valid) in
      (q, checked, completion_applies (rw (checked.normal) at applied))
