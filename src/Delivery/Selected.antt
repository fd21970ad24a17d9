-- ===== src/Delivery/Selected.antt =====
-- internal/daemon/connectors.go, selectRuntime: what a selected runtime has passed.
use agent_comms.Base.{
  ◌≡◌, ◌⊎◌, inl, inr, ap, arith, String, Bool, true, false, not, ◌&&◌, ◌||◌, ◌==◌, Option, none,
  some, List, [], ◌∷◌, ltb, map, if◌then◌else◌, Bool-cases, Option-cases,
}
use agent_comms.Base.Map.{Map, get, get_or}
use agent_comms.Model.State.{State, Invocation, AgentRuntime}
use agent_comms.Model.Zero.{zero_runtime}
use agent_comms.Inbox.Resolve.{sort_texts}
use agent_comms.Delivery.Attempts.{
  effective_runtime_kind, effective_delivery_mode, consumer_mode_allows_runtime,
}
use agent_comms.Delivery.Configs.{ConnectorConfig, Dispatcher}
use agent_comms.Delivery.Select.{
  Candidate, is_excluded, is_local_session, with_type, worker_candidate, candidate_of,
  candidates_in, is_interactive, count_interactive, first_candidate, choose_candidate,
  select_runtime,
}

-- A worker's connector can notify it.
abbrev pub can_notify : AgentRuntime → Bool
can_notify runtime =
    not
      (runtime.connector == "MANUAL" || runtime.connector == "MCP" || runtime.connector == "QUEUE")

-- What the tests of a candidate have shown of its runtime.
pub record IsFit (d : Dispatcher) (i : Invocation) (runtime : AgentRuntime) : Type 0 where
  pub kept : is_excluded i runtime ≡ false
  pub allowed : consumer_mode_allows_runtime i.consumer_mode (effective_runtime_kind runtime) ≡ true
  pub reachable :
      ((effective_runtime_kind runtime == "INTERACTIVE") ≡ true)
        × (is_local_session d runtime ≡ true)
      ⊎ ((effective_runtime_kind runtime == "INTERACTIVE") ≡ false) × (can_notify runtime ≡ true)

with_type_runtime :
    (connector : String) (runtime : AgentRuntime) (o : Option ConnectorConfig) (c : Candidate)
    → with_type connector runtime o ≡ some c
    → runtime ≡ c.runtime
with_type_runtime connector runtime none c h = absurd cc
with_type_runtime connector runtime (some config) c h = ground arith

worker_candidate-can_notify :
    (d : Dispatcher) (runtime : AgentRuntime) (c : Candidate)
    → worker_candidate d runtime ≡ some c
    → (runtime ≡ c.runtime) × (can_notify runtime ≡ true)
unfolding worker_candidate
worker_candidate-can_notify d runtime c h =
    elim (Bool-cases (
      runtime.connector == "MANUAL"
      || runtime.connector == "MCP"
      || runtime.connector == "QUEUE"
      || runtime.config_reference == "")) [
        | inl never ↦ let e : none ≡ some c = rw (worker_candidate, never) at h in absurd cc
        | inr free ↦ (
          with_type_runtime runtime.connector runtime (get runtime.config_reference d.configs) c
              (rw (worker_candidate, free) at h),
          parts (runtime.connector == "MANUAL") (runtime.connector == "MCP")
              (runtime.connector == "QUEUE") (runtime.config_reference == "") free,
        )
      ]
  where
    parts : (a b c e : Bool) → (a || b || c || e) ≡ false → not (a || b || c) ≡ true
    parts a b c e t = ground arith

session_candidate :
    (d : Dispatcher) (runtime : AgentRuntime) (c c' : Candidate)
    → (if is_local_session d runtime then some c' else none) ≡ some c
    → (is_local_session d runtime ≡ true) × (c' ≡ c)
session_candidate d runtime c c' h = elim (Bool-cases (is_local_session d runtime)) [
  | inl here ↦ let e : some c' ≡ some c = rw (here) at h in (here, cc)
  | inr away ↦ let e : none ≡ some c = rw (away) at h in absurd cc
]

candidate_of-IsFit :
    (d : Dispatcher) (i : Invocation) (runtime : AgentRuntime) (c : Candidate)
    → candidate_of d i runtime ≡ some c
    → IsFit d i c.runtime
unfolding candidate_of
candidate_of-IsFit d i runtime c h = elim (Bool-cases (is_excluded i runtime)) [
  | inl out ↦ let e : none ≡ some c = rw (candidate_of, out) at h in absurd cc
  | inr kept ↦
      elim (Bool-cases
        (consumer_mode_allows_runtime i.consumer_mode (effective_runtime_kind runtime))) [
          | inr other ↦ let e : none ≡ some c = rw (candidate_of, kept, other) at h in absurd cc
          | inl allowed ↦ elim (Bool-cases (effective_runtime_kind runtime == "INTERACTIVE")) [
            | inl live ↦
                let (here, e) =
                  session_candidate d runtime c _ (rw (candidate_of, kept, allowed, live) at h) in
                let same : runtime ≡ c.runtime = ap (λ x. x.runtime) e in
                rw (← same)
                  (record { kept = kept; allowed = allowed; reachable = inl (live, here) })
            | inr worker ↦
                let (same, notified) =
                  worker_candidate-can_notify d runtime c
                    (rw (candidate_of, kept, allowed, worker) at h) in
                rw (← same)
                  (record { kept = kept; allowed = allowed; reachable = inr (worker, notified) })
          ]
        ]
]

abbrev AllFit : Dispatcher → Invocation → List Candidate → Type 0
AllFit d i [] = Unit {0}
AllFit d i (c ∷ cs) = IsFit d i c.runtime × AllFit d i cs

candidates_in-AllFit :
    (d : Dispatcher) (i : Invocation) (runtimes : Map AgentRuntime) (ids : List String)
    → AllFit d i (candidates_in d i runtimes ids)
unfolding candidates_in
candidates_in-AllFit d i runtimes [] = tt
candidates_in-AllFit d i runtimes (id ∷ ids) =
    let rest = candidates_in-AllFit d i runtimes ids in
    elim (Option-cases (candidate_of d i (get_or zero_runtime id runtimes))) [
      | inl out ↦ rw (out) rest
      | inr (c, e) ↦ rw (e) (candidate_of-IsFit d i (get_or zero_runtime id runtimes) c e, rest)
    ]

first_candidate-IsFit :
    (d : Dispatcher) (i : Invocation) (skip : Bool) (cs : List Candidate) (c : Candidate)
    → AllFit d i cs
    → first_candidate skip cs ≡ some c
    → IsFit d i c.runtime
unfolding first_candidate
first_candidate-IsFit d i skip [] c fits h = absurd cc
first_candidate-IsFit d i skip (x ∷ xs) c (fit, fits) h =
    elim (Bool-cases (skip && is_interactive x)) [
      | inl passed ↦ first_candidate-IsFit d i skip xs c fits (rw (passed) at h)
      | inr taken ↦
          let e : some x ≡ some c = rw (taken) at h in let same : x ≡ c = cc in rw (← same) fit
    ]

pub select_runtime-IsFit :
    (d : Dispatcher) (st : State) (i : Invocation) (c : Candidate)
    → select_runtime d st i ≡ some c
    → IsFit d i c.runtime
unfolding select_runtime choose_candidate
select_runtime-IsFit d st i c h =
    let cs = candidates_in d i st.runtimes (sort_texts (map (λ x. x.0) st.runtimes)) in
    let fits = candidates_in-AllFit d i st.runtimes (sort_texts (map (λ x. x.0) st.runtimes)) in
    let several = ltb 1 (count_interactive cs) in
    elim (Bool-cases (
      i.preferred_runtime_id == ""
      && effective_delivery_mode i.consumer_mode == "INTERACTIVE_ONLY"
      && several)) [
        | inl unclear ↦
            let e : none ≡ some c = rw (select_runtime, choose_candidate, unclear) at h in absurd cc
        | inr clear ↦
            first_candidate-IsFit d i (several && i.preferred_runtime_id == "") cs c fits
              (rw (select_runtime, choose_candidate, clear) at h)
      ]
