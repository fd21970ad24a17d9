-- ===== src/Service/Claimable.antt =====
-- internal/service/service.go and internal/protocol/transitions.go: the invocation that an agent is
-- given can be claimed.
use agent_comms.Base.{
  ℕ, ◌+◌, ◌≡◌, sym, ◌⊎◌, inl, inr, refl, String, Bool, true, false, not, ◌&&◌, ◌||◌, ◌==◌, Option,
  none, some, arith, Bool-cases, eq_iff, leb, ltb,
}
use agent_comms.Base.Map.{get, get_or-get}
use agent_comms.Base.Text.{trim_space}
use agent_comms.Model.Payloads.{invocation_claimed}
use agent_comms.Model.State.{State, Invocation, AgentRuntime}
use agent_comms.Model.Zero.{zero_invocation}
use agent_comms.Protocol.Result.{Platform, ok}
use agent_comms.Protocol.Invocations.{check_invocation, switch_invocation}
use agent_comms.Protocol.Validate.{validate_transition}
use agent_comms.Protocol.Validate.Acceptance.{IsActive, claim_accepted}
use agent_comms.Protocol.Approvals.{has_expired}
use agent_comms.Protocol.Consumers.{runtime_invocation_load}
use agent_comms.Protocol.Invocations.Work.{
  check_invocation_claimed, check_claim_runtime, default_claim_lease, max_claim_lease,
}
use agent_comms.Service.Best.{select_next_invocation-IsBest}
use agent_comms.Service.Select.{
  runtime_load, deadline_passed, is_eligible, fits_runtime, select_next_invocation,
  select_for_runtime, is_available,
}
use agent_comms.Service.Modes.{
  HasKind, allows, consumer-fits, preferred-fits, runtime_load-runtime_invocation_load,
}

-- What the guards of a claim ask of the runtime.
record CanTake (st : State) (runtime_id : String) (runtime : AgentRuntime) (i : Invocation)
    : Type 0 where
  own : (runtime.agent_id == i.target) ≡ true
  online : (not (runtime.status == "ONLINE") || runtime.health == "UNKNOWN") ≡ false
  room : leb runtime.max_concurrent (runtime_invocation_load st runtime_id) ≡ false
  fit : allows i.consumer_mode runtime.kind runtime.connector ≡ true
  preferred :
      (not (i.preferred_runtime_id == "") && not (i.preferred_runtime_id == runtime_id)) ≡ false

check_claim_runtime-CanTake :
    (st : State) (runtime_id : String) (runtime : AgentRuntime) (i : Invocation)
    → CanTake st runtime_id runtime i
    → check_claim_runtime st i runtime runtime_id ≡ ok tt
unfolding check_claim_runtime allows
check_claim_runtime-CanTake st runtime_id runtime i can =
    rw (can.own) rw (can.online) rw (can.room) rw (can.fit) rw (can.preferred) refl

-- What the guards of a claim ask of the invocation.
record CanBeTaken (actor : String) (i : Invocation) (now : ℕ) : Type 0 where
  target : (actor == i.target) ≡ true
  waiting : (not (i.status == "PENDING") && not (i.status == "NOTIFIED")) ≡ false
  timely : has_expired i.deadline now ≡ false

eligible-CanBeTaken :
    (actor runtime_id : String) (runtime : AgentRuntime) (i : Invocation) (now : ℕ)
    → is_eligible actor (fits_runtime runtime_id runtime) now i ≡ true
    → CanBeTaken actor i now × (fits_runtime runtime_id runtime i ≡ true)
unfolding has_expired
eligible-CanBeTaken actor runtime_id runtime i now h =
    let (ours, waits, fit, timely) =
      parts (i.target == actor) (i.status == "PENDING") (i.status == "NOTIFIED")
        (fits_runtime runtime_id runtime i) (deadline_passed i.deadline now) h in
    (
      record {
        target = (eq_iff actor i.target).1 (sym ((eq_iff i.target actor).0 ours));
        waiting = waits;
        timely = same_deadline i.deadline now timely;
      },
      fit,
    )
  where
    parts :
        (a b c d e : Bool)
        → (a && (b || c) && d && not e) ≡ true
        → (a ≡ true) × ((not b && not c) ≡ false) × (d ≡ true) × (e ≡ false)
    parts a b c d e h = ground arith

    same_deadline : (o : Option ℕ) (n : ℕ) → deadline_passed o n ≡ false → has_expired o n ≡ false
    same_deadline none n h = refl
    same_deadline (some d) n h = h

available-CanTake :
    (st : State) (actor runtime_id : String) (runtime : AgentRuntime) (i : Invocation)
    → HasKind runtime
    → (runtime.health == "UNKNOWN") ≡ false
    → is_available st actor runtime_id runtime ≡ true
    → (actor == i.target) ≡ true
    → fits_runtime runtime_id runtime i ≡ true
    → CanTake st runtime_id runtime i
unfolding is_available
available-CanTake st actor runtime_id runtime i kind healthy free target fit =
    let (own, online, room) =
      parts (runtime.agent_id == actor) (runtime.status == "ONLINE")
        (leb runtime.max_concurrent (runtime_load st runtime_id)) free in
    record {
      own = rw (← (eq_iff actor i.target).0 target) own;
      online = rw (online) rw (healthy) refl;
      room = rw (← runtime_load-runtime_invocation_load st runtime_id) room;
      fit = consumer-fits runtime_id runtime i kind fit;
      preferred = preferred-fits runtime_id runtime i fit;
    }
  where
    parts :
        (a b c : Bool) → not (not a || not b || c) ≡ true → (a ≡ true) × (b ≡ true) × (c ≡ false)
    parts a b c h = ground arith

default_lease_in_range :
    (now : ℕ)
    → (not (ltb now (now + default_claim_lease))
        || ltb (now + max_claim_lease) (now + default_claim_lease))
      ≡ false
default_lease_in_range now = ground arith

claim_ok :
    (st : State) (actor runtime_id : String) (now : ℕ) (runtime : AgentRuntime) (i : Invocation)
    → get runtime_id st.runtimes ≡ some runtime
    → (trim_space runtime_id == "") ≡ false
    → CanBeTaken actor i now
    → CanTake st runtime_id runtime i
    → check_invocation_claimed st actor i true
        (record { runtime_id = runtime_id; claim_until = 0 })
        now
      ≡ ok (
          invocation_claimed
            (record { runtime_id = runtime_id; claim_until = now + default_claim_lease }))
unfolding check_invocation_claimed
claim_ok st actor runtime_id now runtime i there named ready can =
    rw (ready.target) rw (ready.waiting) rw (ready.timely) rw (named) rw (there) rw
      (check_claim_runtime-CanTake st runtime_id runtime i can) rw (default_lease_in_range now) refl

selected_parts :
    (st : State) (actor runtime_id : String) (now : ℕ) (runtime : AgentRuntime) (i : Invocation)
    → get runtime_id st.runtimes ≡ some runtime
    → (runtime_id == "") ≡ false
    → select_next_invocation st actor runtime_id now ≡ some i
    → (is_available st actor runtime_id runtime ≡ true)
      × (is_eligible actor (fits_runtime runtime_id runtime) now i ≡ true)
unfolding select_next_invocation select_for_runtime
selected_parts st actor runtime_id now runtime i there named h =
    elim (Bool-cases (is_available st actor runtime_id runtime)) [
      | inr busy ↦
          let e : none ≡ some i = rw (select_next_invocation, named, there, busy) at h in absurd cc
      | inl free ↦
          let (held, fit, best) = select_next_invocation-IsBest st actor runtime_id now i h in
          (free, rw (named, there) at fit)
    ]

-- The claim passes its block.
selected_claim_ok :
    (st : State) (actor runtime_id : String) (now : ℕ) (runtime : AgentRuntime) (i : Invocation)
    → get runtime_id st.runtimes ≡ some runtime
    → HasKind runtime
    → (runtime.health == "UNKNOWN") ≡ false
    → (trim_space runtime_id == "") ≡ false
    → select_next_invocation st actor runtime_id now ≡ some i
    → check_invocation_claimed st actor i true
        (record { runtime_id = runtime_id; claim_until = 0 })
        now
      ≡ ok (
          invocation_claimed
            (record { runtime_id = runtime_id; claim_until = now + default_claim_lease }))
unfolding trim_space
selected_claim_ok st actor runtime_id now runtime i there kind healthy named h =
    let given = not_blank (Bool-cases (runtime_id == "")) in
    let (free, eligible) = selected_parts st actor runtime_id now runtime i there given h in
    let (ready, fit) = eligible-CanBeTaken actor runtime_id runtime i now eligible in
    claim_ok st actor runtime_id now runtime i there named ready
      (available-CanTake st actor runtime_id runtime i kind healthy free ready.target fit)
  where
    not_blank :
        ((runtime_id == "") ≡ true) ⊎ ((runtime_id == "") ≡ false) → (runtime_id == "") ≡ false
    not_blank (inr given) = given
    not_blank (inl blank) = let clash = rw ((eq_iff runtime_id "").0 blank) at named in absurd cc

-- An invocation that SelectNextInvocation returns for an online runtime of one of the two kinds, whose
-- health is not unknown and whose ID is not blank, is accepted by the validator when the agent, which
-- is active, claims it at that time for that runtime without naming a lease, and gets the default
-- lease. It is asked that the invocation is stored under its own ID.
pub selected_claimable :
    (pf : Platform) (st : State) (actor runtime_id : String) (now : ℕ) (runtime : AgentRuntime)
    (i : Invocation)
    → IsActive st actor
    → get runtime_id st.runtimes ≡ some runtime
    → HasKind runtime
    → (runtime.health == "UNKNOWN") ≡ false
    → (trim_space runtime_id == "") ≡ false
    → get i.id st.invocations ≡ some i
    → select_next_invocation st actor runtime_id now ≡ some i
    → validate_transition pf st actor "invocation.claim" i.id
        (invocation_claimed (record { runtime_id = runtime_id; claim_until = 0 }))
        now
      ≡ ok (
          invocation_claimed
            (record { runtime_id = runtime_id; claim_until = now + default_claim_lease }))
unfolding check_invocation switch_invocation
selected_claimable pf st actor runtime_id now runtime i active there kind healthy named stored h =
    claim_accepted pf st actor i.id _ now active (
      rw (get_or-get zero_invocation i.id st.invocations stored) rw (stored)
        (selected_claim_ok st actor runtime_id now runtime i there kind healthy named h))
