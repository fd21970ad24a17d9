-- ===== src/Tests/TakeoverTests.antt =====
-- A takeover of an abandoned task.
use agent_comms.Base.{◌≡◌, refl, [], ◌∷◌}
use agent_comms.Model.Payloads.{Payload, TaskStatus, task_status}
use agent_comms.Model.State.{State, Task, Approval}
use agent_comms.Model.Zero.{zero_approval}
use agent_comms.Protocol.Result.{ok}
use agent_comms.Protocol.Validate.{validate_transition}
use agent_comms.Projection.Apply.{apply_event}
use agent_comms.Tasks.Takeover.{takeover_event, takeover_projects, TakenOver, Unique}
use agent_comms.Tests.Fixtures.{platform, project, run, open_task}

abbrev approved : Approval
approved = record zero_approval {
  id = "a1";
  tier = "ORCHESTRATOR";
  action = "task.takeover:t1";
  status = "APPROVED";
}

abbrev abandoned_task : Task
abandoned_task = record open_task { status = "IN_PROGRESS"; owner = "gone" }

abbrev abandoned : State
abandoned = record project {
  tasks = ("t1", abandoned_task) ∷ [];
  approvals = ("a1", approved) ∷ [];
}

abbrev plain : TaskStatus
plain = record { summary = ""; evidence = []; reviewer = ""; approval_id = "" }

abbrev named : Payload
named = task_status (record plain { approval_id = "a1" })

takeover_accepted :
    validate_transition platform abandoned "claude-a" "task.takeover" "t1" (task_status plain) 1000
    ≡ ok named
unfolding run
takeover_accepted = refl

approvals-Unique : Unique abandoned.approvals
unfolding run
approvals-Unique = (refl, tt)

takeover_projects_example :
    (st' : State) × (apply_event platform abandoned
        (record (takeover_event platform abandoned "claude-a" "t1" "evt-4" 1000 4 plain plain) {
          payload = named;
        })
      ≡ ok st')
    × TakenOver platform abandoned "claude-a" "t1" "evt-4" 1000 4 plain st'
takeover_projects_example =
    takeover_projects platform abandoned "claude-a" "t1" "evt-4" 1000 4 plain approvals-Unique
      takeover_accepted
