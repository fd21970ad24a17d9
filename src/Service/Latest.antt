-- ===== src/Service/Latest.antt =====
-- internal/service/service.go, SummarizeInvocationDelivery: the summary is of the latest delivery.
use agent_comms.Base.{
  ℕ, ◌≤◌, ◌≡◌, sym, ◌∙◌, ◌⊎◌, inl, inr, refl, String, Bool, true, false, ◌==◌, ◌&&◌, Option, none,
  some, [], ◌∷◌, Bool-cases, Option-cases, arith, ltb,
}
use agent_comms.Base.Map.{Map, get}
use agent_comms.Model.State.{State, Invocation, InvocationDelivery}
use agent_comms.Service.Select.{mode_or_either}
use agent_comms.Service.Best.{some-injective}
use agent_comms.Service.Outcomes.{
  InvocationDeliveryResult, concerns, newer, latest_of, eligible_interactive, undelivered_result,
  outcome_of, delivered_result, summarize_known, summarize_invocation_delivery,
}

-- The delivery is in the list.
abbrev pub IsAmong : Map InvocationDelivery → InvocationDelivery → Type 0
IsAmong [] best = ⊥
IsAmong ((id, d) ∷ rest) best = (best ≡ d) ⊎ IsAmong rest best

-- No delivery of the list that passes the test is of a later attempt.
abbrev pub NoneLater : (InvocationDelivery → Bool) → Map InvocationDelivery → ℕ → Type 0
NoneLater concerned [] n = Unit {0}
NoneLater concerned ((id, d) ∷ rest) n =
    (concerned d ≡ true → d.attempt ≤ n) × NoneLater concerned rest n

-- No delivery of the list passes the test.
abbrev pub NoneConcerned : (InvocationDelivery → Bool) → Map InvocationDelivery → Type 0
NoneConcerned concerned [] = Unit {0}
NoneConcerned concerned ((id, d) ∷ rest) = (concerned d ≡ false) × NoneConcerned concerned rest

-- What a loop that started with `start` has selected from the rest of the list.
record Latest (concerned : InvocationDelivery → Bool) (ms : Map InvocationDelivery)
    (start : Option InvocationDelivery) (best : InvocationDelivery) : Type 0 where
  from : (start ≡ some best) ⊎ (IsAmong ms best × (concerned best ≡ true))
  none_later : NoneLater concerned ms best.attempt
  beats_start : (j : InvocationDelivery) → start ≡ some j → j.attempt ≤ best.attempt

-- The delivery that is kept is one of the two, and neither is later.
newer-keeps :
    (start : Option InvocationDelivery) (d : InvocationDelivery)
    → (kept : InvocationDelivery) × (newer start d ≡ some kept)
      × ((d ≡ kept) ⊎ (start ≡ some kept))
      × (d.attempt ≤ kept.attempt)
      × ((j : InvocationDelivery) → start ≡ some j → j.attempt ≤ kept.attempt)
unfolding newer
newer-keeps none d = (d, refl, inl refl, omega arith, λ j e. absurd cc)
newer-keeps (some s) d = elim (Bool-cases (ltb s.attempt d.attempt)) [
  | inl later ↦
      (d, rw (later) refl, inl refl, omega arith, λ j e. rw (← some-injective e) (ground arith))
  | inr kept ↦
      (s, rw (kept) refl, inr refl, ground arith, λ j e. rw (← some-injective e) (omega arith))
]

latest_of-Latest :
    (concerned : InvocationDelivery → Bool) (ms : Map InvocationDelivery)
    (start : Option InvocationDelivery) (best : InvocationDelivery)
    → latest_of concerned ms start ≡ some best
    → Latest concerned ms start best
unfolding latest_of
latest_of-Latest concerned [] start best h = record {
  from = inl h;
  none_later = tt;
  beats_start = λ j e. let same : j ≡ best = some-injective (sym e ∙ h) in rw (same) (omega arith);
}
latest_of-Latest concerned ((id, d) ∷ ms) start best h = elim (Bool-cases (concerned d)) [
  | inr other ↦
      let rest = latest_of-Latest concerned ms start best (rw (other) at h) in
      record {
        from = elim rest.from [ inl e ↦ inl e | inr (there, fit) ↦ inr (inr there, fit) ];
        none_later = (λ fit. absurd cc, rest.none_later);
        beats_start = rest.beats_start;
      }
  | inl fit ↦
      let (kept, e, origin, next, before) = newer-keeps start d in
      let rest = latest_of-Latest concerned ms (some kept) best (rw (← e) (rw (fit) at h)) in
      let over = rest.beats_start kept refl in
      record {
        from = elim rest.from [
          | inr (there, ok_best) ↦ inr (inr there, ok_best)
          | inl same ↦ elim origin [
            | inr old ↦ inl (old ∙ same)
            | inl now ↦
                let whole : d ≡ best = now ∙ some-injective same in
                inr (inl (sym whole), rw (← whole) fit)
          ]
        ];
        none_later = (λ f. omega arith, rest.none_later);
        beats_start = λ j g. let low = before j g in omega arith;
      }
]

latest_of-none :
    (concerned : InvocationDelivery → Bool) (ms : Map InvocationDelivery)
    (start : Option InvocationDelivery)
    → latest_of concerned ms start ≡ none
    → (start ≡ none) × NoneConcerned concerned ms
unfolding latest_of
latest_of-none concerned [] start h = (h, tt)
latest_of-none concerned ((id, d) ∷ ms) start h = elim (Bool-cases (concerned d)) [
  | inr other ↦
      let rest = latest_of-none concerned ms start (rw (other) at h) in (rest.0, (other, rest.1))
  | inl fit ↦
      let rest = latest_of-none concerned ms (newer start d) (rw (fit) at h) in
      let (kept, e, origin, next, before) = newer-keeps start d in
      let off : some kept ≡ none = sym e ∙ rest.0 in absurd cc
]

undelivered_outcome :
    (st : State) (invocation_id local_host_id : String) (i : Invocation)
    → ((undelivered_result st invocation_id local_host_id i).outcome == "SUCCEEDED") ≡ false
unfolding undelivered_result
undelivered_outcome st invocation_id local_host_id i =
    elim (Bool-cases (mode_or_either i.consumer_mode == "INTERACTIVE_ONLY")) [
      | inr other ↦ rw (other) refl
      | inl interactive ↦
          elim (Bool-cases (
            i.preferred_runtime_id == ""
            && ltb 1 (eligible_interactive i.target local_host_id st.runtimes 0))) [
              | inl many ↦ rw (interactive) rw (many) refl
              | inr few ↦ rw (interactive) rw (few) refl
            ]
    ]

outcome_of-success :
    (status : String) → (outcome_of status == "SUCCEEDED") ≡ (status == "SUCCEEDED")
unfolding outcome_of
outcome_of-success status = elim (Bool-cases (status == "SUCCEEDED")) [
  | inl e ↦ rw (e) refl
  | inr n ↦ elim (Bool-cases (status == "NOTIFIED")) [
    | inl e ↦ rw (n) rw (e) refl
    | inr n' ↦ elim (Bool-cases (status == "ATTEMPTED")) [
      | inl e ↦ rw (n) rw (n') rw (e) refl
      | inr n'' ↦ rw (n) rw (n') rw (n'') refl
    ]
  ]
]

-- The result is about the delivery: it has its ID, its runtime and its evidence, and it reports a
-- success exactly where the delivery has one.
abbrev pub Reports : InvocationDeliveryResult → InvocationDelivery → Type 0
Reports r d =
    (r.delivery_id ≡ d.id)
    × (r.runtime_id ≡ d.runtime_id)
    × (r.evidence ≡ d.evidence)
    × ((r.outcome == "SUCCEEDED") ≡ (d.status == "SUCCEEDED"))

delivered_result-Reports :
    (invocation_id : String) (d : InvocationDelivery) (r : InvocationDeliveryResult)
    → delivered_result invocation_id d ≡ r
    → Reports r d
unfolding delivered_result
delivered_result-Reports invocation_id d r e =
    rw (← e) ((refl, refl, refl, outcome_of-success d.status))

-- A summary that SummarizeInvocationDelivery returns is of a delivery of the state that is of the
-- invocation, and is the named one where one is named, and no such delivery is of a later attempt: it
-- has that delivery's ID, runtime and evidence, and reports a success exactly where the delivery
-- succeeded. Otherwise the state has no such delivery, and the summary reports no success.
pub summarize_invocation_delivery-latest :
    (st : State) (invocation_id delivery_id local_host_id : String) (r : InvocationDeliveryResult)
    → summarize_invocation_delivery st invocation_id delivery_id local_host_id ≡ some r
    → (NoneConcerned (concerns invocation_id delivery_id) st.deliveries
        × ((r.outcome == "SUCCEEDED") ≡ false))
      ⊎ ((d : InvocationDelivery) × IsAmong st.deliveries d
          × (concerns invocation_id delivery_id d ≡ true)
          × NoneLater (concerns invocation_id delivery_id) st.deliveries d.attempt
          × Reports r d)
unfolding summarize_invocation_delivery summarize_known delivered_result
summarize_invocation_delivery-latest st invocation_id delivery_id local_host_id r h =
    elim (Option-cases (get invocation_id st.invocations)) [
      | inl unknown ↦
          let e : none ≡ some r = rw (summarize_invocation_delivery, unknown) at h in absurd cc
      | inr (i, there) ↦
          elim (Option-cases (latest_of (concerns invocation_id delivery_id) st.deliveries none)) [
            | inl nothing ↦
                let e : some (undelivered_result st invocation_id local_host_id i) ≡ some r =
                  rw (summarize_invocation_delivery, there, summarize_known, nothing) at h in
                inl (
                  (latest_of-none (concerns invocation_id delivery_id) st.deliveries none
                      nothing).1,
                  rw (← some-injective e) (undelivered_outcome st invocation_id local_host_id i),
                )
            | inr (d, best) ↦
                let e : some (delivered_result invocation_id d) ≡ some r =
                  rw (summarize_invocation_delivery, there, summarize_known, best) at h in
                inr (
                  reported d (delivered_result-Reports invocation_id d r (some-injective e)) (
                    latest_of-Latest (concerns invocation_id delivery_id) st.deliveries none d
                      best))
          ]
    ]
  where
    reported :
        (d : InvocationDelivery)
        → Reports r d
        → Latest (concerns invocation_id delivery_id) st.deliveries none d
        → (d : InvocationDelivery) × IsAmong st.deliveries d
          × (concerns invocation_id delivery_id d ≡ true)
          × NoneLater (concerns invocation_id delivery_id) st.deliveries d.attempt
          × Reports r d
    reported d told latest = elim latest.from [
      | inl never ↦ absurd cc
      | inr (there, fit) ↦ (d, there, fit, latest.none_later, told)
    ]
