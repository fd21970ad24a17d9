-- ===== src/Tests/TaskTests.antt =====
-- Tasks.
use agent_comms.Base.{ℕ, String, ◌≡◌, refl, some, [], ◌∷◌}
use agent_comms.Base.Map.{get, get_or}
use agent_comms.Model.Payloads.{
  Payload, TaskClaimed, TaskStatus, TaskOffered, task_claimed, task_status, message_response,
}
use agent_comms.Model.State.{State, Task, Event}
use agent_comms.Protocol.Result.{ok}
use agent_comms.Authority.Advance.{advance}
use agent_comms.Tasks.Exclusive.{claim_event, claim_exclusive, Claimed}
use agent_comms.Tasks.Claim.{ClaimChecked}
use agent_comms.Model.Zero.{zero_task}
use agent_comms.Protocol.Tasks.{check_task}
use agent_comms.Projection.Messages.{unblock}
use agent_comms.Tasks.Review.{completion_event, completion_reviewed, Completed, CompletionChecked}
use agent_comms.Tasks.Offer.{offer_event, any_task_offered}
use agent_comms.Tasks.Stranded.{resolved_blocker_strands, WorksOn}
use agent_comms.Tests.Fixtures.{platform, project, after, run, open_task, worker}

abbrev claim : TaskClaimed
claim = record { lease_until = 0; offer_id = ""; worktree = "wt" }

abbrev claimed_state : State
unfolding run
claimed_state =
    after project (run project (claim_event platform project "claude-a" "t1" "evt-3" 1000 3 claim))

claim_accepted :
    advance platform project (claim_event platform project "claude-a" "t1" "evt-3" 1000 3 claim)
    ≡ ok claimed_state
unfolding run
claim_accepted = refl

claim_exclusive_example :
    (q : Payload) × ClaimChecked project "claude-a" "t1" 1000 claim q
    × (t' : Task) × (get "t1" claimed_state.tasks ≡ some t')
    × Claimed platform project "claude-a" "t1" "evt-3" 1000 3 claim t'
claim_exclusive_example =
    claim_exclusive platform project "claude-a" "t1" "evt-3" 1000 3 claim claim_accepted

abbrev in_review : Task
in_review = record open_task { status = "REVIEW"; owner = "claude-a"; risk = "SENSITIVE" }

abbrev reviewing : State
reviewing = record project { tasks = ("t1", in_review) ∷ [] }

abbrev report : TaskStatus
report = record { summary = "done"; evidence = []; reviewer = "ana"; approval_id = "" }

abbrev finished : State
unfolding run
finished =
    after reviewing
      (run reviewing (completion_event platform reviewing "ana" "t1" "evt-4" 2000 4 report))

completion_accepted :
    advance platform reviewing
      (completion_event platform reviewing "ana" "t1" "evt-4" 2000 4 report)
    ≡ ok finished
unfolding run
completion_accepted = refl

completion_reviewed_example :
    (q : Payload) × CompletionChecked reviewing "ana"
      (get_or zero_task "t1" reviewing.tasks)
      report
      q
    × Completed platform reviewing "ana" "t1" "evt-4" 2000 4 report finished
completion_reviewed_example =
    completion_reviewed platform reviewing "ana" "t1" "evt-4" 2000 4 report completion_accepted

abbrev done_task : Task
done_task = record open_task { status = "COMPLETED"; owner = "claude-a" }

abbrev done : State
done = record project { tasks = ("t1", done_task) ∷ [] }

abbrev offer : TaskOffered
offer = record { to = "claude-a"; expires_at = 9000 }

worker_there : get "claude-a" done.agents ≡ some worker
unfolding run
worker_there = refl

done_there : get "t1" done.tasks ≡ some done_task
unfolding run
done_there = refl

any_task_offered_example :
    (st' : State) × (advance platform done
        (offer_event platform done "claude-a" "t1" "evt-5" 3000 5 offer)
      ≡ ok st')
    × (t' : Task) × (get "t1" st'.tasks ≡ some t')
    × (t'.status ≡ "OFFERED")
    × (t'.owner ≡ "claude-a")
any_task_offered_example =
    any_task_offered platform done "claude-a" "t1" "evt-5" 3000 5 offer worker done_task
      worker_there refl refl done_there

abbrev blocked_task : Task
blocked_task = record open_task { status = "BLOCKED"; owner = "claude-a" }

abbrev blocked : State
blocked = record project { tasks = ("t1", blocked_task) ∷ [] }

abbrev resolution : Event
resolution = record {
  id = "evt-6";
  sequence = 6;
  time = 4000;
  actor = "ana";
  typ = "message.resolve";
  entity_id = "m1";
  payload = message_response (record { response = "RESOLVED"; note = "" });
}

blocked_there : get "t1" blocked.tasks ≡ some blocked_task
unfolding run
blocked_there = refl

resolved_blocker_strands_example :
    (t' : Task) × (get "t1" (unblock blocked resolution "t1").tasks ≡ some t')
    × (t'.status ≡ "OPEN")
    × (t'.owner ≡ "claude-a")
    × ((actor : String) (now : ℕ) (p : TaskClaimed) (q : Payload)
        → ¬ (
            check_task
              (unblock blocked resolution "t1")
              actor
              "task.claim"
              "t1"
              (task_claimed p)
              now
            ≡ ok q))
    × ((actor typ : String) (now : ℕ) (p : TaskStatus) (q : Payload)
        → WorksOn typ
        → ¬ (
            check_task (unblock blocked resolution "t1") actor typ "t1" (task_status p) now ≡ ok q))
resolved_blocker_strands_example =
    resolved_blocker_strands blocked resolution "t1" blocked_task blocked_there refl refl
