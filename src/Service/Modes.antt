-- ===== src/Service/Modes.antt =====
-- internal/service/service.go and internal/protocol/transitions.go: loads and consumer modes, which the
-- two count and read in their own ways.
use agent_comms.Base.{
  ℕ, ◌+◌, ◌≡◌, ◌∙◌, ◌⊎◌, inl, inr, refl, String, Bool, true, false, not, ◌&&◌, ◌||◌, ◌==◌, [], ◌∷◌,
  arith, Bool-cases, eq_iff,
}
use agent_comms.Base.Map.{Map}
use agent_comms.Model.State.{State, Invocation, AgentRuntime}
use agent_comms.Protocol.Consumers.{
  count_load, runtime_invocation_load, occupies, consumer_allows_kind,
  effective_invocation_consumer, runtime_kind, valid_consumer_mode,
}
use agent_comms.Service.Select.{load_of, runtime_load, mode_or_either, kind_or_worker, fits_runtime}

load_of-count_load :
    (runtime_id : String) (ms : Map Invocation) (n : ℕ)
    → load_of runtime_id ms n ≡ n + count_load runtime_id ms
unfolding load_of count_load
load_of-count_load runtime_id [] n = omega arith
load_of-count_load runtime_id ((id, i) ∷ ms) n = elim (Bool-cases (occupies runtime_id i)) [
  | inl busy ↦ rw (busy) (load_of-count_load runtime_id ms (n + 1) ∙ omega arith)
  | inr idle ↦ rw (idle) (load_of-count_load runtime_id ms n ∙ omega arith)
]

-- The service and the validator count the same load.
pub runtime_load-runtime_invocation_load :
    (st : State) (runtime_id : String)
    → runtime_load st runtime_id ≡ runtime_invocation_load st runtime_id
unfolding runtime_load runtime_invocation_load
runtime_load-runtime_invocation_load st runtime_id =
    load_of-count_load runtime_id st.invocations 0 ∙ omega arith

-- A runtime that is registered as one of the two kinds.
abbrev pub HasKind : AgentRuntime → Type 0
HasKind runtime = (runtime.kind ≡ "INTERACTIVE") ⊎ (runtime.kind ≡ "WORKER")

IsRefused : String → String → Type 0
IsRefused m kind =
    (mode_or_either m == "INTERACTIVE_ONLY" && not (kind_or_worker kind == "INTERACTIVE")
      || mode_or_either m == "WORKER_ONLY" && not (kind_or_worker kind == "WORKER"))
    ≡ true

unfoldable pub allows : String → String → String → Bool
unfolding consumer_allows_kind effective_invocation_consumer runtime_kind
allows m kind connector =
    consumer_allows_kind (effective_invocation_consumer m) (runtime_kind kind connector)

-- A mode that is none of the three is for either kind.
allows_other :
    (m connector : String)
    → valid_consumer_mode m ≡ false
    → (allows m "INTERACTIVE" connector ≡ true) × (allows m "WORKER" connector ≡ true)
unfolding allows
allows_other m connector other = (rw (other) refl, rw (other) refl)

pub mode_cases :
    (m : String)
    → (m ≡ "INTERACTIVE_ONLY")
      ⊎ ((m ≡ "WORKER_ONLY") ⊎ ((m ≡ "EITHER") ⊎ (valid_consumer_mode m ≡ false)))
unfolding valid_consumer_mode
mode_cases m = elim (Bool-cases (m == "INTERACTIVE_ONLY")) [
  | inl e ↦ inl ((eq_iff m "INTERACTIVE_ONLY").0 e)
  | inr n ↦ elim (Bool-cases (m == "WORKER_ONLY")) [
    | inl e ↦ inr (inl ((eq_iff m "WORKER_ONLY").0 e))
    | inr n' ↦ elim (Bool-cases (m == "EITHER")) [
      | inl e ↦ inr (inr (inl ((eq_iff m "EITHER").0 e)))
      | inr n'' ↦ inr (inr (inr (rw (n) rw (n') rw (n'') refl)))
    ]
  ]
]

allows-interactive :
    (m connector : String) → ¬ IsRefused m "INTERACTIVE" → allows m "INTERACTIVE" connector ≡ true
unfolding allows IsRefused valid_consumer_mode
allows-interactive m connector fit = elim (mode_cases m) [
  | inl e ↦ rw (e) refl
  | inr (inl e) ↦ absurd (fit (rw (e) refl))
  | inr (inr (inl e)) ↦ rw (e) refl
  | inr (inr (inr other)) ↦ (allows_other m connector other).0
]

allows-worker : (m connector : String) → ¬ IsRefused m "WORKER" → allows m "WORKER" connector ≡ true
unfolding allows IsRefused valid_consumer_mode
allows-worker m connector fit = elim (mode_cases m) [
  | inl e ↦ absurd (fit (rw (e) refl))
  | inr (inl e) ↦ rw (e) refl
  | inr (inr (inl e)) ↦ rw (e) refl
  | inr (inr (inr other)) ↦ (allows_other m connector other).1
]

pub consumer-fits :
    (runtime_id : String) (runtime : AgentRuntime) (i : Invocation)
    → HasKind runtime
    → fits_runtime runtime_id runtime i ≡ true
    → allows i.consumer_mode runtime.kind runtime.connector ≡ true
unfolding IsRefused
consumer-fits runtime_id runtime i (inl kind) fit = rw (kind) (
    allows-interactive i.consumer_mode runtime.connector
      (λ refused. absurd (ground (arith, rw (kind) at fit, refused))))
consumer-fits runtime_id runtime i (inr kind) fit = rw (kind) (
    allows-worker i.consumer_mode runtime.connector
      (λ refused. absurd (ground (arith, rw (kind) at fit, refused))))

pub preferred-fits :
    (runtime_id : String) (runtime : AgentRuntime) (i : Invocation)
    → fits_runtime runtime_id runtime i ≡ true
    → (not (i.preferred_runtime_id == "") && not (i.preferred_runtime_id == runtime_id)) ≡ false
preferred-fits runtime_id runtime i fit = ground arith
