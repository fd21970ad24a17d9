-- ===== src/Tests/InvocationTests.antt =====
-- Invocations and the evidence of their delivery.
use agent_comms.Base.Text.{trim_space}
use agent_comms.Base.{ℕ, false, ◌==◌, ◌+◌, ◌≤◌, ◌<◌, ◌≡◌, refl, List, [], ◌∷◌, some}
use agent_comms.Base.Map.{get}
use agent_comms.Model.Payloads.{InvocationClaimed, InvocationRejected, DeliveryEvidence}
use agent_comms.Model.State.{State, Invocation, AgentRuntime}
use agent_comms.Model.Zero.{zero_invocation, zero_runtime}
use agent_comms.Protocol.Result.{ok}
use agent_comms.Protocol.Consumers.{runtime_invocation_load}
use agent_comms.Protocol.Evidence.{validate_delivery_evidence}
use agent_comms.Protocol.Invocations.Work.{max_claim_lease, deadline_ahead}
use agent_comms.Authority.Advance.{advance}
use agent_comms.Invocations.Claim.{claim_event, claim_keeps_capacity, Claimed}
use agent_comms.Invocations.Expiry.{expiry_event, past_deadline_expires}
use agent_comms.Invocations.Delivered.{interactive_evidence, TextAndEnter}
use agent_comms.Tests.Fixtures.{platform, project, after, run, owner}

abbrev pending : Invocation
pending = record zero_invocation {
  id = "i1";
  requested_by = "ana";
  target = "claude-a";
  instruction = "fix";
  consumer_mode = "EITHER";
  status = "PENDING";
}

abbrev host : AgentRuntime
host = record zero_runtime {
  id = "r1";
  agent_id = "claude-a";
  kind = "WORKER";
  connector = "MCP";
  status = "ONLINE";
  health = "HEALTHY";
  max_concurrent = 1;
}

abbrev requested : State
requested = record project { invocations = ("i1", pending) ∷ []; runtimes = ("r1", host) ∷ [] }

abbrev claim : InvocationClaimed
claim = record { runtime_id = "r1"; claim_until = 0 }

abbrev running : State
unfolding run
running =
    after requested
      (run requested (claim_event platform requested "claude-a" "i1" "evt-5" 1000 5 claim))

claim_accepted :
    advance platform requested (claim_event platform requested "claude-a" "i1" "evt-5" 1000 5 claim)
    ≡ ok running
unfolding run
claim_accepted = refl

claim_keeps_capacity_example :
    (runtime : AgentRuntime) × (get "r1" running.runtimes ≡ some runtime)
    × (runtime.status ≡ "ONLINE")
    × (runtime.agent_id ≡ "claude-a")
    × (runtime_invocation_load running "r1" ≤ runtime.max_concurrent)
    × (until : ℕ) × (1000 < until)
    × (until ≤ 1000 + max_claim_lease)
    × Claimed platform requested "claude-a" "i1" "evt-5" 1000 5 claim running until
claim_keeps_capacity_example =
    claim_keeps_capacity platform requested "claude-a" "i1" "evt-5" 1000 5 claim claim_accepted

abbrev two_stages : List DeliveryEvidence
two_stages =
    record { stage = "pty_text_echoed"; at = 1000 }
    ∷ record { stage = "PTY_ENTER_SENT"; at = 1200 }
    ∷ []

two_stages_accepted :
    validate_delivery_evidence "INTERACTIVE" "session-1" two_stages 900 1500 ≡ ok tt
unfolding run
two_stages_accepted = refl

interactive_evidence_example :
    (first : DeliveryEvidence) × (second : DeliveryEvidence) × (two_stages ≡ first ∷ second ∷ [])
    × TextAndEnter first second 900 1500
interactive_evidence_example =
    interactive_evidence "session-1" two_stages 900 1500 two_stages_accepted

abbrev finished : Invocation
finished = record pending { status = "COMPLETED"; deadline = some 2000; summary = "all done" }

abbrev delivered : State
delivered = record project { invocations = ("i1", finished) ∷ [] }

abbrev too_late : InvocationRejected
too_late = record { reason = "deadline" }

owner_there : get "ana" delivered.agents ≡ some owner
unfolding run
owner_there = refl

finished_there : get "i1" delivered.invocations ≡ some finished
unfolding run
finished_there = refl

deadline_past : deadline_ahead finished.deadline 3000 ≡ false
unfolding run
deadline_past = refl

reason_given : (trim_space "deadline" == "") ≡ false
unfolding run
reason_given = refl

past_deadline_expires_example :
    (st' : State) × (advance platform delivered
        (expiry_event platform delivered "ana" "i1" "evt-9" 3000 9 too_late)
      ≡ ok st')
    × (i' : Invocation) × (get "i1" st'.invocations ≡ some i')
    × (i'.status ≡ "EXPIRED")
    × (i'.summary ≡ "all done")
past_deadline_expires_example =
    past_deadline_expires platform delivered "ana" "i1" "evt-9" 3000 9 too_late owner finished
      owner_there refl refl finished_there refl deadline_past reason_given
