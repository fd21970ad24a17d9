-- ===== src/Tasks/Offer.antt =====
-- internal/protocol/transitions.go and internal/projection/apply.go: offers and expiries, which look at
-- no status.
use agent_comms.Base.{ℕ, ◌≡◌, ap, refl, String, false, ◌==◌, some}
use agent_comms.Base.Map.{get, get_or-get}
use agent_comms.Model.Payloads.{TaskOffered, task_offered}
use agent_comms.Model.State.{State, Event, Task, Agent}
use agent_comms.Model.Zero.{zero_task}
use agent_comms.Protocol.Result.{Platform, ok}
use agent_comms.Model.EventTypes.{decodes}
use agent_comms.Protocol.Standing.{active}
use agent_comms.Protocol.Agents.{check_standing}
use agent_comms.Protocol.Tasks.{check_task}
use agent_comms.Protocol.Validate.{validate_transition}
use agent_comms.Projection.Apply.{apply_event}
use agent_comms.Projection.Tasks.{apply_task_offered}
use agent_comms.Projection.Stamp.{stamp_entity, get-update-put}
use agent_comms.Authority.Advance.{advance}

module _ (pf : Platform) (st : State) (actor id event_id : String) (now sequence : ℕ)
    (p : TaskOffered) where
  abbrev pub offer_event : Event
  offer_event = record {
    id = event_id;
    sequence = sequence;
    time = now;
    actor = actor;
    typ = "task.offer";
    entity_id = id;
    payload = task_offered p;
  }

  offer_valid :
      (a : Agent) (t : Task)
      → get actor st.agents ≡ some a
      → (actor == "") ≡ false
      → a.status ≡ "ACTIVE"
      → get id st.tasks ≡ some t
      → validate_transition pf st actor "task.offer" id (task_offered p) now ≡ ok (task_offered p)
  unfolding validate_transition check_standing active check_task
  offer_valid a t there named awake task = rw (named, there, awake, task) refl

  -- An offer of a task that is there, by an active principal of any role, is accepted, whoever owns the
  -- task and whatever its status is; the task is offered afterwards and has the owner that it had.
  pub any_task_offered :
      (a : Agent) (t : Task)
      → get actor st.agents ≡ some a
      → (actor == "") ≡ false
      → a.status ≡ "ACTIVE"
      → get id st.tasks ≡ some t
      → (st' : State) × (advance pf st offer_event ≡ ok st')
        × (t' : Task) × (get id st'.tasks ≡ some t')
        × (t'.status ≡ "OFFERED")
        × (t'.owner ≡ t.owner)
  unfolding advance decodes apply_event apply_task_offered stamp_entity
  any_task_offered a t there named awake task = (
    stamp_entity (apply_task_offered st offer_event p) offer_event,
    rw (offer_valid a t there named awake task) refl,
    _,
    get-update-put id _ _ st.tasks,
    refl,
    ap (λ v. v.owner) (get_or-get zero_task id st.tasks task),
  )
