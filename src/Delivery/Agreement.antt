-- ===== src/Delivery/Agreement.antt =====
-- internal/daemon/connectors.go and internal/protocol/transitions.go: the dispatcher and the validator
-- read the same deliveries in their own ways.
use agent_comms.Base.{
  ℕ, ◌+◌, ◌≡◌, inl, inr, refl, ◌∙◌, arith, String, Bool, true, false, not, ◌&&◌, ◌||◌, ◌==◌, [],
  ◌∷◌, ltb, leb, any, Bool-cases,
}
use agent_comms.Base.Map.{Map}
use agent_comms.Service.Modes.{mode_cases}
use agent_comms.Model.State.{State, InvocationDelivery}
use agent_comms.Protocol.Approvals.{runs_later}
use agent_comms.Protocol.Consumers.{
  next_attempt, next_delivery_attempt, count_automatic, automatic_delivery_attempts,
  consumer_allows_kind, effective_invocation_consumer, valid_consumer_mode,
}
use agent_comms.Protocol.Invocations.Delivery.{is_live_attempt, has_live_attempt}
use agent_comms.Delivery.Attempts.{
  max_attempt, delivery_attempt, automatic_from, automatic_delivery_attempt_count,
  is_pending_delivery, retry_pending_in, delivery_retry_pending, effective_delivery_mode,
  consumer_mode_allows_runtime,
}

next_attempt-max_attempt :
    (id : String) (ds : Map InvocationDelivery) (n : ℕ)
    → next_attempt id ds (n + 1) ≡ max_attempt id ds n + 1
unfolding next_attempt max_attempt
next_attempt-max_attempt id [] n = refl
next_attempt-max_attempt id ((k, d) ∷ ds) n = elim (Bool-cases (d.invocation_id == id)) [
  | inr other ↦ rw (other) (next_attempt-max_attempt id ds n)
  | inl own ↦ elim (Bool-cases (ltb n d.attempt)) [
    | inl above ↦
        let above' : leb (n + 1) d.attempt ≡ true = ground arith in
        rw (own) rw (above) rw (above') (next_attempt-max_attempt id ds d.attempt)
    | inr below ↦
        let below' : leb (n + 1) d.attempt ≡ false = ground arith in
        rw (own) rw (below) rw (below') (next_attempt-max_attempt id ds n)
  ]
]

automatic_from-count_automatic :
    (id : String) (ds : Map InvocationDelivery) (n : ℕ)
    → automatic_from id ds n ≡ n + count_automatic id ds
unfolding automatic_from count_automatic
automatic_from-count_automatic id [] n = omega arith
automatic_from-count_automatic id ((k, d) ∷ ds) n =
    elim (Bool-cases (d.invocation_id == id && not d.manual)) [
      | inl own ↦ rw (own) (automatic_from-count_automatic id ds (n + 1) ∙ omega arith)
      | inr other ↦ rw (other) (automatic_from-count_automatic id ds n ∙ omega arith)
    ]

-- The number that the dispatcher gives the next attempt of an invocation is the one that the validator
-- gives it, and both count the same automatic attempts.
pub attempt_numbers_agree :
    (st : State) (id : String)
    → (delivery_attempt st id + 1 ≡ next_delivery_attempt st id)
      × (automatic_delivery_attempt_count st id ≡ automatic_delivery_attempts st id)
unfolding delivery_attempt next_delivery_attempt automatic_delivery_attempt_count
    automatic_delivery_attempts
attempt_numbers_agree st id =
    let next = next_attempt-max_attempt id st.deliveries 0 in
    let automatic = automatic_from-count_automatic id st.deliveries 0 in
    (omega (arith, next), omega (arith, automatic))

pub consumer_mode_allows_runtime-consumer_allows_kind :
    (mode kind : String)
    → consumer_mode_allows_runtime mode kind ≡ true
    → consumer_allows_kind (effective_invocation_consumer mode) kind ≡ true
unfolding consumer_mode_allows_runtime consumer_allows_kind effective_delivery_mode
    effective_invocation_consumer valid_consumer_mode
consumer_mode_allows_runtime-consumer_allows_kind mode kind h = elim (mode_cases mode) [
  | inl e ↦ rw (e) (rw (e) at h)
  | inr (inl e) ↦ rw (e) (rw (e) at h)
  | inr (inr (inl e)) ↦ rw (e) (rw (e) at h)
  | inr (inr (inr other)) ↦ rw (other) (rw (other) at h)
]

live_attempt-pending :
    (id runtime_id : String) (now : ℕ) (ds : Map InvocationDelivery)
    → retry_pending_in id now ds ≡ false
    → any (λ entry. is_live_attempt id runtime_id now entry.1) ds ≡ false
unfolding retry_pending_in any is_live_attempt is_pending_delivery
live_attempt-pending id runtime_id now [] h = refl
live_attempt-pending id runtime_id now ((k, d) ∷ ds) h =
    let (here, rest) =
      parts (d.invocation_id == id) (d.runtime_id == runtime_id) (d.status == "ATTEMPTED")
        (runs_later d.attempt_until now) (runs_later d.next_retry_at now)
        (retry_pending_in id now ds) h in
    rw (here) (live_attempt-pending id runtime_id now ds rest)
  where
    parts :
        (a b c e f rest : Bool)
        → ((a && ((c && e) || f)) || rest) ≡ false
        → ((a && b && c && e) ≡ false) × (rest ≡ false)
    parts a b c e f rest h = ground arith

-- While no retry is pending, no attempt of the invocation is live on any runtime.
pub live_attempt-retry_pending :
    (st : State) (id runtime_id : String) (now : ℕ)
    → delivery_retry_pending st id now ≡ false
    → has_live_attempt st id runtime_id now ≡ false
unfolding delivery_retry_pending has_live_attempt
live_attempt-retry_pending st id runtime_id now h =
    live_attempt-pending id runtime_id now st.deliveries h
