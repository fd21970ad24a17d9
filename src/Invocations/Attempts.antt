-- ===== src/Invocations/Attempts.antt =====
-- internal/protocol/transitions.go: the number of a delivery attempt.
use agent_comms.Base.{
  ℕ, ◌+◌, ◌≤◌, ◌<◌, ◌≡◌, refl, sym, inl, inr, String, Bool, true, false, ◌==◌, not, ◌&&◌, ◌||◌,
  some, [], ◌∷◌, if◌then◌else◌, arith, leb, ltb, any, Bool-cases,
}
use agent_comms.Base.Text.{trim_space}
use agent_comms.Base.Map.{Map, get}
use agent_comms.Model.Payloads.{Payload, InvocationDeliveryAttempted, invocation_delivery_attempted}
use agent_comms.Model.State.{State, Invocation, InvocationDelivery}
use agent_comms.Protocol.Approvals.{runs_later}
use agent_comms.Protocol.Result.{
  ok, ◌>>◌, reject_if, found, bind_ok, then_ok, reject_if_ok, ok-injective,
}
use agent_comms.Protocol.Consumers.{
  next_attempt, next_delivery_attempt, automatic_delivery_attempts,
}
use agent_comms.Protocol.Invocations.Delivery.{
  check_invocation_delivery_attempted, check_delivery_runtime, may_deliver, resolve_endpoint,
  has_live_attempt, is_live_attempt, max_delivery_attempts, max_delivery_attempt_lease,
}

next_attempt-least :
    (id : String) (m : Map InvocationDelivery) (next : ℕ) → next ≤ next_attempt id m next
unfolding next_attempt
next_attempt-least id [] next = omega arith
next_attempt-least id ((k, d) ∷ m) next =
    ground (arith, next_attempt-least id m next, next_attempt-least id m (d.attempt + 1))

some-injective : {a b : InvocationDelivery} → some a ≡ some b → a ≡ b
some-injective h = cc

first_above :
    (id : String) (d : InvocationDelivery) (m : Map InvocationDelivery) (next : ℕ)
    → (d.invocation_id == id) ≡ true
    → d.attempt
      < next_attempt id m
          (if d.invocation_id == id && leb next d.attempt then d.attempt + 1 else next)
first_above id d m next own = elim (Bool-cases (leb next d.attempt)) [
  | inl reaches ↦ rw (own, reaches) (above (next_attempt-least id m (d.attempt + 1)))
  | inr below ↦ rw (own, below) (under below (next_attempt-least id m next))
]
  where
    above : {n : ℕ} → d.attempt + 1 ≤ n → d.attempt < n
    above h = omega arith

    under : {n : ℕ} → leb next d.attempt ≡ false → next ≤ n → d.attempt < n
    under h l = ground (arith, h, l)

-- Every attempt of the invocation lies below the next one.
next_attempt-above :
    (id k : String) (m : Map InvocationDelivery) (next : ℕ) {d : InvocationDelivery}
    → get k m ≡ some d
    → (d.invocation_id == id) ≡ true
    → d.attempt < next_attempt id m next
unfolding next_attempt get
next_attempt-above id k [] next there own = cc
next_attempt-above id k ((j, v) ∷ m) next there own = elim (Bool-cases (j == k)) [
  | inl here ↦
      let same = some-injective (rw (here) at there) in
      rw (← same) (first_above id v m next (rw (← same) at own))
  | inr other ↦ next_attempt-above id k m _ (rw (other) at there) own
]

-- What an attempt was checked for.
pub record AttemptChecked (st : State) (id : String) (now : ℕ) (p : InvocationDeliveryAttempted)
    (q : Payload) : Type 0 where
  pub body : InvocationDeliveryAttempted
  pub normal : q ≡ invocation_delivery_attempted body
  pub number : body.attempt ≡ next_delivery_attempt st id
  pub same_runtime : body.runtime_id ≡ p.runtime_id
  pub budget :
      p.manual ≡ false → leb max_delivery_attempts (automatic_delivery_attempts st id) ≡ false
  pub live_free : has_live_attempt st id p.runtime_id now ≡ false

budget_left :
    (manual b : Bool) (e : String)
    → reject_if (not manual && b) e ≡ ok tt
    → manual ≡ false
    → b ≡ false
budget_left false b e h same = reject_if_ok b e h
budget_left true b e h same = ground arith

-- The end of the check, from the test for a live attempt on.
tail_checked :
    (st : State) (id : String) (now until : ℕ) (p body : InvocationDeliveryAttempted)
    (e e' e'' : String) {q : Payload}
    → (reject_if (has_live_attempt st id p.runtime_id now) e
        >> (reject_if
              (not p.manual && leb max_delivery_attempts (automatic_delivery_attempts st id))
              e'
            >> (reject_if (not (ltb now until) || ltb (now + max_delivery_attempt_lease) until) e''
                >> ok (invocation_delivery_attempted body))))
      ≡ ok q
    → body.attempt ≡ next_delivery_attempt st id
    → body.runtime_id ≡ p.runtime_id
    → AttemptChecked st id now p q
tail_checked st id now until p body e e' e'' h number same_runtime =
    let (g1, h1) = then_ok (reject_if (has_live_attempt st id p.runtime_id now) e) _ h in
    let (g2, h2) =
      then_ok
        (reject_if (not p.manual && leb max_delivery_attempts (automatic_delivery_attempts st id))
          e')
        _ h1 in
    let (g3, h3) =
      then_ok (reject_if (not (ltb now until) || ltb (now + max_delivery_attempt_lease) until) e'')
        _ h2 in
    record {
      body = body;
      normal = sym (ok-injective h3);
      number = number;
      same_runtime = same_runtime;
      budget = budget_left _ _ _ g2;
      live_free = reject_if_ok _ _ g1;
    }

check_attempted-AttemptChecked :
    (st : State) (actor id : String) (i : Invocation) (exists : Bool)
    (p : InvocationDeliveryAttempted) (now : ℕ) {q : Payload}
    → check_invocation_delivery_attempted st actor id i exists p now ≡ ok q
    → AttemptChecked st id now p q
unfolding check_invocation_delivery_attempted
check_attempted-AttemptChecked st actor id i exists p now h =
    let (g1, h1) = then_ok (reject_if (not exists) _) _ h in
    let (g2, h2) =
      then_ok (reject_if (not (i.status == "PENDING") && not (i.status == "NOTIFIED")) _) _ h1 in
    let (g3, h3) = then_ok (reject_if (not (may_deliver st actor i)) _) _ h2 in
    let (g4, h4) =
      then_ok (reject_if (trim_space p.delivery_id == "" || trim_space p.runtime_id == "") _) _
        h3 in
    let (g5, h5) = then_ok _ _ h4 in
    let (runtime, g6, h6) =
      bind_ok
        (found (get p.runtime_id st.runtimes)
          "delivery runtime must belong to the invocation target")
        _ h5 in
    let (g7, h7) = then_ok (check_delivery_runtime i runtime p.runtime_id) _ h6 in
    let (resolved, g8, h8) = bind_ok (resolve_endpoint runtime p) _ h7 in
    tail_checked st id now _ p _ _ _ _ h8 refl refl

-- No delivery of a list that has no live attempt is one.
not_live :
    (id runtime_id k : String) (now : ℕ) (m : Map InvocationDelivery) {d : InvocationDelivery}
    → any (λ entry. is_live_attempt id runtime_id now entry.1) m ≡ false
    → get k m ≡ some d
    → is_live_attempt id runtime_id now d ≡ false
unfolding any get
not_live id runtime_id k now [] none_live there = absurd cc
not_live id runtime_id k now ((j, v) ∷ m) none_live there = elim (Bool-cases (j == k)) [
  | inl here ↦
      let same = some-injective (rw (here) at there) in
      rw (← same) (first_off (is_live_attempt id runtime_id now v) none_live).0
  | inr other ↦
      not_live id runtime_id k now m (first_off (is_live_attempt id runtime_id now v) none_live).1
        (rw (other) at there)
]
  where
    first_off : (a : Bool) {b : Bool} → (a || b) ≡ false → (a ≡ false) × (b ≡ false)
    first_off a h = ground arith

-- What an accepted attempt, with its number, finds of a delivery of the same invocation.
abbrev pub IsBehind : String → String → ℕ → ℕ → InvocationDelivery → Type 0
IsBehind id runtime_id now number d =
    (d.attempt < number)
    × ((d.runtime_id == runtime_id) ≡ true
        → (d.status == "ATTEMPTED") ≡ true
        → runs_later d.attempt_until now ≡ false)

-- A delivery attempt that is accepted keeps the runtime that it names and carries a number above that of
-- every delivery of its invocation; no attempt of the same invocation on the same runtime is still
-- alive, and one that is not manual finds fewer than ten automatic attempts of the invocation.
pub attempt_is_fresh :
    (st : State) (actor id : String) (i : Invocation) (exists : Bool)
    (p : InvocationDeliveryAttempted) (now : ℕ) {q : Payload}
    → check_invocation_delivery_attempted st actor id i exists p now ≡ ok q
    → (body : InvocationDeliveryAttempted) × (q ≡ invocation_delivery_attempted body)
      × (body.runtime_id ≡ p.runtime_id)
      × (p.manual ≡ false → automatic_delivery_attempts st id < 10)
      × ((k : String) (d : InvocationDelivery)
          → get k st.deliveries ≡ some d
          → (d.invocation_id == id) ≡ true
          → IsBehind id p.runtime_id now body.attempt d)
unfolding next_delivery_attempt has_live_attempt is_live_attempt
attempt_is_fresh st actor id i exists p now h =
    let checked = check_attempted-AttemptChecked st actor id i exists p now h in
    (
      checked.body,
      checked.normal,
      checked.same_runtime,
      λ automatic. ground (arith, checked.budget automatic),
      λ k d there own. (
        rw (checked.number) (next_attempt-above id k st.deliveries 1 there own),
        λ on waiting.
            ended (d.invocation_id == id) (d.runtime_id == p.runtime_id) (d.status == "ATTEMPTED")
              (runs_later d.attempt_until now) own on waiting
              (not_live id p.runtime_id k now st.deliveries checked.live_free there),
      ),
    )
  where
    ended :
        (a b c e : Bool) → a ≡ true → b ≡ true → c ≡ true → (a && b && c && e) ≡ false → e ≡ false
    ended a b c e ha hb hc h = ground arith
