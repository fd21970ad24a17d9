-- ===== src/Tests/ServiceTests.antt =====
-- An agent with one runtime and three invocations.
use agent_comms.Base.{◌≡◌, ◌+◌, refl, ◌⊎◌, inr, true, false, [], ◌∷◌, some, ◌==◌}
use agent_comms.Base.Map.{get}
use agent_comms.Base.Text.{trim_space}
use agent_comms.Model.Payloads.{invocation_claimed}
use agent_comms.Model.State.{
  State, Agent, Invocation, InvocationDelivery, AgentRuntime, empty_state,
}
use agent_comms.Model.Zero.{zero_invocation, zero_delivery, zero_runtime, zero_clock}
use agent_comms.Protocol.Result.{ok}
use agent_comms.Protocol.Invocations.Work.{default_claim_lease}
use agent_comms.Protocol.Validate.{validate_transition}
use agent_comms.Protocol.Validate.Acceptance.{IsActive}
use agent_comms.Tests.Fixtures.{platform, owner}
use agent_comms.Service.Select.{select_next_invocation}
use agent_comms.Service.Best.{Holds, IsBest, eligible_for, select_next_invocation-IsBest}
use agent_comms.Service.Outcomes.{concerns, delivered_result, summarize_invocation_delivery}
use agent_comms.Service.Latest.{
  IsAmong, NoneLater, NoneConcerned, Reports, summarize_invocation_delivery-latest,
}
use agent_comms.Service.Claimable.{selected_claimable}

abbrev waiting : Invocation
waiting = record zero_invocation {
  id = "i1";
  target = "bob";
  status = "PENDING";
  priority = "LOW";
  clock = record zero_clock { created_at = 3 };
}

abbrev urgent : Invocation
urgent = record waiting {
  id = "i2";
  priority = "URGENT";
  consumer_mode = "WORKER_ONLY";
  clock = record zero_clock { created_at = 9 };
}

abbrev later : Invocation
later = record urgent { id = "i3"; clock = record zero_clock { created_at = 10 } }

abbrev worker : AgentRuntime
worker = record zero_runtime {
  id = "r1";
  agent_id = "bob";
  kind = "WORKER";
  status = "ONLINE";
  health = "HEALTHY";
  max_concurrent = 1;
}

abbrev bob : Agent
bob = record owner { id = "bob" }

abbrev busy_state : State
busy_state = record empty_state {
  agents = ("bob", bob) ∷ [];
  runtimes = ("r1", worker) ∷ [];
  invocations = ("i1", waiting) ∷ ("i3", later) ∷ ("i2", urgent) ∷ [];
}

urgent_selected : select_next_invocation busy_state "bob" "r1" 50 ≡ some urgent
unfolding select_next_invocation
urgent_selected = refl

select_next_invocation-IsBest_example :
    Holds busy_state.invocations urgent
    × (eligible_for busy_state "bob" "r1" 50 urgent ≡ true)
    × IsBest (eligible_for busy_state "bob" "r1" 50) busy_state.invocations urgent
select_next_invocation-IsBest_example =
    select_next_invocation-IsBest busy_state "bob" "r1" 50 urgent urgent_selected

r1_named : (trim_space "r1" == "") ≡ false
unfolding trim_space
r1_named = refl

bob-IsActive : IsActive busy_state "bob"
unfolding get
bob-IsActive = record { agent = bob; named = refl; known = refl; status = refl }

selected_claimable_example :
    validate_transition platform busy_state "bob" "invocation.claim" "i2"
      (invocation_claimed (record { runtime_id = "r1"; claim_until = 0 }))
      50
    ≡ ok (invocation_claimed (record { runtime_id = "r1"; claim_until = 50 + default_claim_lease }))
unfolding get
selected_claimable_example =
    selected_claimable platform busy_state "bob" "r1" 50 worker urgent bob-IsActive refl (inr refl)
      refl r1_named refl urgent_selected

-- Two attempts of the first invocation, of which the first had failed.
abbrev second_attempt : InvocationDelivery
second_attempt = record zero_delivery {
  id = "d2";
  invocation_id = "i1";
  attempt = 2;
  status = "SUCCEEDED";
}

abbrev delivered_state : State
delivered_state = record busy_state {
  deliveries =
      ("d2", second_attempt)
      ∷ ("d1", record second_attempt { id = "d1"; attempt = 1; status = "FAILED" })
      ∷ [];
}

second_summarized :
    summarize_invocation_delivery delivered_state "i1" "" "h1"
    ≡ some (delivered_result "i1" second_attempt)
unfolding summarize_invocation_delivery delivered_result
second_summarized = refl

summarize_invocation_delivery-latest_example :
    (NoneConcerned (concerns "i1" "") delivered_state.deliveries
      × (((delivered_result "i1" second_attempt).outcome == "SUCCEEDED") ≡ false))
    ⊎ ((d : InvocationDelivery) × IsAmong delivered_state.deliveries d
        × (concerns "i1" "" d ≡ true)
        × NoneLater (concerns "i1" "") delivered_state.deliveries d.attempt
        × Reports (delivered_result "i1" second_attempt) d)
summarize_invocation_delivery-latest_example =
    summarize_invocation_delivery-latest delivered_state "i1" "" "h1"
      (delivered_result "i1" second_attempt) second_summarized
