-- ===== src/Invocations/Capacity.antt =====
-- internal/protocol/transitions.go and internal/projection/apply.go: a runtime never takes more
-- invocations than it may run at once.
use agent_comms.Base.{
  ℕ, ◌+◌, ◌≤◌, ◌<◌, ◌≡◌, refl, sym, inl, inr, String, Bool, true, false, not, ◌||◌, ◌==◌, some, [],
  ◌∷◌, arith, eq_iff, Option-cases, ltb,
}
use agent_comms.Model.Payloads.{Payload, InvocationClaimed, invocation_claimed}
use agent_comms.Protocol.Result.{
  ok, reject_if, bind_ok, then_ok, reject_if_ok, require_ok, either_ok, found_ok, ok-injective,
}
use agent_comms.Protocol.Approvals.{has_expired}
use agent_comms.Protocol.Invocations.Work.{
  check_claim_runtime, check_invocation_claimed, max_claim_lease,
}
use agent_comms.Base.Map.{Map, get, put}
use agent_comms.Model.State.{State, Invocation, AgentRuntime}
use agent_comms.Protocol.Consumers.{count_load, occupies, runtime_invocation_load}
use agent_comms.Projection.Stamp.{update}

-- A write adds one invocation at most to the load of a runtime.
pub count_load-put :
    (runtime_id k : String) (v : Invocation) (m : Map Invocation)
    → count_load runtime_id (put k v m) ≤ count_load runtime_id m + 1
unfolding count_load put
count_load-put runtime_id k v [] = ground arith
count_load-put runtime_id k v ((j, w) ∷ m) = ground (arith, count_load-put runtime_id k v m)

-- A change that leaves an invocation where it runs leaves the load.
count_load-same :
    (runtime_id k : String) (v w : Invocation) (m : Map Invocation)
    → get k m ≡ some w
    → occupies runtime_id v ≡ occupies runtime_id w
    → count_load runtime_id (put k v m) ≡ count_load runtime_id m
unfolding count_load put get
count_load-same runtime_id k v w [] h same = ground arith
count_load-same runtime_id k v w ((j, u) ∷ m) h same =
    ground (arith, count_load-same runtime_id k v w m)

pub count_load-update :
    (runtime_id k : String) (f : Invocation → Invocation) (m : Map Invocation)
    → ((i : Invocation) → occupies runtime_id (f i) ≡ occupies runtime_id i)
    → count_load runtime_id (update k f m) ≡ count_load runtime_id m
unfolding update
count_load-update runtime_id k f m same = elim (Option-cases (get k m)) [
  | inl missing ↦ rw (update, missing) refl
  | inr (i, there) ↦ rw (update, there) (count_load-same runtime_id k (f i) i m there (same i))
]

-- What a claim was checked for.
pub record ClaimChecked (st : State) (actor : String) (i : Invocation) (p : InvocationClaimed)
    (now : ℕ) (q : Payload) : Type 0 where
  pub runtime : AgentRuntime
  pub there : get p.runtime_id st.runtimes ≡ some runtime
  pub own : actor ≡ i.target
  pub online : runtime.status ≡ "ONLINE"
  pub of_target : runtime.agent_id ≡ i.target
  pub room : runtime_invocation_load st p.runtime_id < runtime.max_concurrent
  pub claimable : (i.status == "PENDING" || i.status == "NOTIFIED") ≡ true
  pub in_time : has_expired i.deadline now ≡ false
  pub until : ℕ
  pub starts : now < until
  pub ends : until ≤ now + max_claim_lease
  pub normal : q ≡ invocation_claimed (record p { claim_until = until })

check_claim_runtime-room :
    (st : State) (i : Invocation) (runtime : AgentRuntime) (runtime_id : String)
    → check_claim_runtime st i runtime runtime_id ≡ ok tt
    → (runtime.status ≡ "ONLINE")
      × (runtime.agent_id ≡ i.target)
      × (runtime_invocation_load st runtime_id < runtime.max_concurrent)
unfolding check_claim_runtime
check_claim_runtime-room st i runtime runtime_id h = (
  ground (arith, eq_iff runtime.status "ONLINE"),
  ground (arith, eq_iff runtime.agent_id i.target),
  ground arith,
)

lease_bounds :
    (now until : ℕ) (e : String)
    → reject_if (not (ltb now until) || ltb (now + max_claim_lease) until) e ≡ ok tt
    → (now < until) × (until ≤ now + max_claim_lease)
lease_bounds now until e h = (ground arith, ground arith)

pub check_invocation_claimed-ClaimChecked :
    (st : State) (actor : String) (i : Invocation) (exists : Bool) (p : InvocationClaimed) (now : ℕ)
    {q : Payload}
    → check_invocation_claimed st actor i exists p now ≡ ok q
    → ClaimChecked st actor i p now q
unfolding check_invocation_claimed
check_invocation_claimed-ClaimChecked st actor i exists p now h =
    let (g1, h1) = then_ok _ _ h in
    let (g2, h2) = then_ok _ _ h1 in
    let (g3, h3) = then_ok _ _ h2 in
    let (g4, h4) = then_ok _ _ h3 in
    let (g5, h5) = then_ok _ _ h4 in
    let (runtime, g6, h6) = bind_ok _ _ h5 in
    let (g7, h7) = then_ok (check_claim_runtime st i runtime p.runtime_id) _ h6 in
    let (g8, h8) = then_ok _ _ h7 in
    let (online, of_target, room) = check_claim_runtime-room st i runtime p.runtime_id g7 in
    record {
      runtime = runtime;
      there = found_ok _ _ g6;
      own = (eq_iff _ _).0 (require_ok _ _ g2);
      online = online;
      of_target = of_target;
      room = room;
      claimable = either_ok _ _ _ g3;
      in_time = reject_if_ok _ _ g4;
      until = _;
      starts = (lease_bounds now _ _ g8).0;
      ends = (lease_bounds now _ _ g8).1;
      normal = sym (ok-injective h8);
    }
