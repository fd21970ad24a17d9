-- ===== src/Service/Best.antt =====
-- internal/service/service.go, SelectNextInvocation: the selected invocation is a best eligible one.
use agent_comms.Base.{
  ℕ, ◌≡◌, sym, ◌∙◌, ◌⊎◌, inl, inr, refl, String, Bool, true, false, ◌&&◌, ◌==◌, Option, none, some,
  [], ◌∷◌, Bool-cases, Option-cases, if◌then◌else◌,
}
use agent_comms.Base.Map.{Map, get}
use agent_comms.Model.State.{State, Invocation}
use agent_comms.Service.Select.{
  is_better, prefer, select_from, is_eligible, fits_anyone, fits_runtime, select_next_invocation,
  select_for_runtime, is_available,
}
use agent_comms.Service.Ranks.{is_better_trans, is_better_irrefl, is_better_asym}

-- No eligible invocation of the list is better.
abbrev pub IsBest : (Invocation → Bool) → Map Invocation → Invocation → Type 0
IsBest eligible [] best = Unit {0}
IsBest eligible ((id, i) ∷ rest) best =
    ((eligible i && is_better i best) ≡ false) × IsBest eligible rest best

abbrev pub Ineligible : (Invocation → Bool) → Map Invocation → Type 0
Ineligible eligible [] = Unit {0}
Ineligible eligible ((id, i) ∷ rest) = (eligible i ≡ false) × Ineligible eligible rest

-- The invocation is in the list.
abbrev pub Holds : Map Invocation → Invocation → Type 0
Holds [] best = ⊥
Holds ((id, i) ∷ rest) best = (best ≡ i) ⊎ Holds rest best

-- What a loop that started with `start` has selected from the rest of the list.
record Selected (eligible : Invocation → Bool) (ms : Map Invocation) (start : Option Invocation)
    (best : Invocation) : Type 0 where
  from : (start ≡ some best) ⊎ (Holds ms best × (eligible best ≡ true))
  is_best : IsBest eligible ms best
  beats_start : (j : Invocation) → start ≡ some j → is_better j best ≡ false

pub some-injective : {A : Type 0} {a b : A} → some a ≡ some b → a ≡ b
some-injective h = cc

-- What `prefer` keeps of the selected invocation and the next one.
record Preferred (start : Option Invocation) (i : Invocation) (kept : Invocation) : Type 0 where
  is_kept : prefer start i ≡ some kept
  origin : (i ≡ kept) ⊎ (start ≡ some kept)
  beats_next : is_better i kept ≡ false
  beats_start : (j : Invocation) → start ≡ some j → is_better j kept ≡ false

prefer-Preferred :
    (start : Option Invocation) (i : Invocation) → (kept : Invocation) × Preferred start i kept
unfolding prefer
prefer-Preferred none i = (
  i,
  record {
    is_kept = refl;
    origin = inl refl;
    beats_next = is_better_irrefl i;
    beats_start = λ j e. cc;
  },
)
prefer-Preferred (some j) i = elim (Bool-cases (is_better i j)) [
  | inl better ↦ (
    i,
    record {
      is_kept = rw (better) refl;
      origin = inl refl;
      beats_next = is_better_irrefl i;
      beats_start = λ k e. rw (← some-injective e) (is_better_asym i j better);
    },
  )
  | inr other ↦ (
    j,
    record {
      is_kept = rw (other) refl;
      origin = inr refl;
      beats_next = other;
      beats_start = λ k e. rw (← some-injective e) (is_better_irrefl j);
    },
  )
]

Holds-later :
    (eligible : Invocation → Bool) (start : Option Invocation) (i : Invocation)
    (ms : Map Invocation) (id : String) (best : Invocation)
    → (start ≡ some best) ⊎ (Holds ms best × (eligible best ≡ true))
    → (start ≡ some best) ⊎ (Holds ((id, i) ∷ ms) best × (eligible best ≡ true))
Holds-later eligible start i ms id best (inl e) = inl e
Holds-later eligible start i ms id best (inr (there, fit)) = inr (inr there, fit)

Holds-Preferred :
    (eligible : Invocation → Bool) (start : Option Invocation) (i : Invocation)
    (ms : Map Invocation) (id : String) (best kept : Invocation)
    → eligible i ≡ true
    → Preferred start i kept
    → (some kept ≡ some best) ⊎ (Holds ms best × (eligible best ≡ true))
    → (start ≡ some best) ⊎ (Holds ((id, i) ∷ ms) best × (eligible best ≡ true))
Holds-Preferred eligible start i ms id best kept fit p (inr (there, ok_best)) =
    inr (inr there, ok_best)
Holds-Preferred eligible start i ms id best kept fit p (inl e) = elim p.origin [
  | inr before ↦ inl (before ∙ e)
  | inl now ↦ let same : i ≡ best = now ∙ some-injective e in inr (inl (sym same), rw (← same) fit)
]

select_from-Selected :
    (eligible : Invocation → Bool) (ms : Map Invocation) (start : Option Invocation)
    (best : Invocation)
    → select_from eligible ms start ≡ some best
    → Selected eligible ms start best
unfolding select_from
select_from-Selected eligible [] start best h = record {
  from = inl h;
  is_best = tt;
  beats_start =
      λ j e. let same : j ≡ best = some-injective (sym e ∙ h) in rw (same) (is_better_irrefl best);
}
select_from-Selected eligible ((id, i) ∷ ms) start best h = elim (Bool-cases (eligible i)) [
  | inr other ↦
      let rest = select_from-Selected eligible ms start best (rw (other) at h) in
      record {
        from = Holds-later eligible start i ms id best rest.from;
        is_best = (rw (other) refl, rest.is_best);
        beats_start = rest.beats_start;
      }
  | inl fit ↦
      let (kept, p) = prefer-Preferred start i in
      let rest =
        select_from-Selected eligible ms (some kept) best (rw (← p.is_kept) (rw (fit) at h)) in
      let over = rest.beats_start kept refl in
      record {
        from = Holds-Preferred eligible start i ms id best kept fit p rest.from;
        is_best = (rw (fit) (is_better_trans i kept best p.beats_next over), rest.is_best);
        beats_start = λ j e. is_better_trans j kept best (p.beats_start j e) over;
      }
]

-- The loop ends without a selection only where nothing is eligible.
select_from-none :
    (eligible : Invocation → Bool) (ms : Map Invocation) (start : Option Invocation)
    → select_from eligible ms start ≡ none
    → (start ≡ none) × Ineligible eligible ms
unfolding select_from prefer
select_from-none eligible [] start h = (h, tt)
select_from-none eligible ((id, i) ∷ ms) start h = elim (Bool-cases (eligible i)) [
  | inr other ↦
      let rest = select_from-none eligible ms start (rw (other) at h) in (rest.0, (other, rest.1))
  | inl fit ↦
      let rest = select_from-none eligible ms (prefer start i) (rw (fit) at h) in
      let (kept, p) = prefer-Preferred start i in
      let off : some kept ≡ none = sym p.is_kept ∙ rest.0 in absurd cc
]

-- The test of an invocation for an agent that asks with a runtime, or without one.
abbrev pub eligible_for : State → String → String → ℕ → Invocation → Bool
eligible_for st actor runtime_id now =
    if runtime_id == ""
    then is_eligible actor fits_anyone now
    else elim (get runtime_id st.runtimes) [
      | none ↦ λ i. false
      | some runtime ↦ is_eligible actor (fits_runtime runtime_id runtime) now
    ]

-- An invocation that SelectNextInvocation returns is one of the state that is eligible for the agent
-- and the runtime, and no eligible invocation has a higher priority, or the same one and an earlier
-- time of creation.
pub select_next_invocation-IsBest :
    (st : State) (actor runtime_id : String) (now : ℕ) (best : Invocation)
    → select_next_invocation st actor runtime_id now ≡ some best
    → Holds st.invocations best
      × (eligible_for st actor runtime_id now best ≡ true)
      × IsBest (eligible_for st actor runtime_id now) st.invocations best
unfolding select_next_invocation select_for_runtime
select_next_invocation-IsBest st actor runtime_id now best h =
    elim (Bool-cases (runtime_id == "")) [
      | inl anyone ↦ rw (anyone) (whole (is_eligible actor fits_anyone now) (rw (anyone) at h))
      | inr named ↦ elim (Option-cases (get runtime_id st.runtimes)) [
        | inl unknown ↦
            let e : none ≡ some best = rw (select_next_invocation, named, unknown) at h in absurd cc
        | inr (runtime, there) ↦ elim (Bool-cases (is_available st actor runtime_id runtime)) [
          | inr busy ↦
              let e : none ≡ some best = rw (select_next_invocation, named, there, busy) at h in
              absurd cc
          | inl free ↦ rw (named) rw (there) (
              whole (is_eligible actor (fits_runtime runtime_id runtime) now)
                (rw (select_next_invocation, named, there, free) at h))
        ]
      ]
    ]
  where
    whole :
        (eligible : Invocation → Bool)
        → select_from eligible st.invocations none ≡ some best
        → Holds st.invocations best × (eligible best ≡ true) × IsBest eligible st.invocations best
    whole eligible e = finish (select_from-Selected eligible st.invocations none best e)
      where
        finish :
            Selected eligible st.invocations none best
            → Holds st.invocations best
              × (eligible best ≡ true)
              × IsBest eligible st.invocations best
        finish s = elim s.from [
          | inl never ↦ absurd cc
          | inr (there, fit) ↦ (there, fit, s.is_best)
        ]
