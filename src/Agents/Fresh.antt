-- ===== src/Agents/Fresh.antt =====
-- internal/model/provider.go, DefaultAgentActorID: the search for a free ID ends.
use agent_comms.Base.{
  ℕ, zero, suc, ◌+◌, ◌<◌, ◌≤◌, ◌≡◌, inl, inr, refl, ap, ◌∙◌, arith, String, true, false, ◌==◌, none,
  some, List, [], ◌∷◌, length, leb, eq_iff, if◌then◌else◌, Bool-cases, Option-cases,
}
use Prim.Native.String.{◌++◌}
use text.Mathlib.TextLemmas.{append_cancel_left}
use agent_comms.Base.Text.{has, trim_space, to_lower}
use agent_comms.Model.ActorIds.{numbered_id, first_free, default_agent_actor_id}

-- The list without its first item that is the text.
without : String → List String → List String
without x [] = []
without x (y ∷ ys) = if y == x then ys else y ∷ without x ys

length-without :
    (x : String) (ys : List String) → has ys x ≡ true → length ys ≡ suc (length (without x ys))
unfolding has without
length-without x [] h = absurd cc
length-without x (y ∷ ys) h = elim (Bool-cases (y == x)) [
  | inl here ↦ rw (here) refl
  | inr there ↦ rw (there) (ap suc (length-without x ys (rw (there) at h)))
]

has-without : (x z : String) (ys : List String) → (x == z) ≡ false → has (without x ys) z ≡ has ys z
unfolding has without
has-without x z [] h = refl
has-without x z (y ∷ ys) h =
    ground (arith, has-without x z ys h, eq_iff y x, eq_iff x z, eq_iff y z)

-- Texts that are different, and all in the list, are no more than the list has.
AllIn : (ℕ → String) → List String → ℕ → ℕ → Type 0
AllIn f ids n k = (i : ℕ) → n ≤ i → i < n + k → has ids (f i) ≡ true

IsApart : (ℕ → String) → Type 0
IsApart f = (i j : ℕ) → i < j → (f i == f j) ≡ false

pigeonhole :
    (f : ℕ → String) (ids : List String) (n k : ℕ) → IsApart f → AllIn f ids n k → k ≤ length ids
unfolding IsApart AllIn
pigeonhole f ids n zero apart all = omega arith
pigeonhole f ids n (suc k) apart all =
    let here = length-without (f n) ids (all n (omega arith) (omega arith)) in
    let rest = pigeonhole f (without (f n) ids) (n + 1) k apart (λ i above below.
      has-without (f n) (f i) ids (apart n i (omega arith)) ∙ all i (omega arith) (omega arith)) in
    omega (arith, here, rest)

first_free-none :
    (decimal : ℕ → String) (taken : List String) (provider : String) (fuel n : ℕ)
    → first_free decimal taken provider fuel n ≡ none
    → AllIn (numbered_id decimal provider) taken n fuel
unfolding first_free AllIn
first_free-none decimal taken provider zero n h i above below = absurd (omega arith)
first_free-none decimal taken provider (suc fuel) n h i above below =
    elim (Bool-cases (has taken (numbered_id decimal provider n))) [
      | inr free ↦
          let e : some (numbered_id decimal provider n) ≡ none = rw (first_free, free) at h in
          absurd cc
      | inl busy ↦ elim (Bool-cases (leb i n)) [
        | inl first ↦ let same : n ≡ i = ground arith in rw (← same) busy
        | inr later ↦
            first_free-none decimal taken provider fuel (n + 1) (rw (first_free, busy) at h) i
              (ground arith) (omega arith)
      ]
    ]

first_free-taken :
    (decimal : ℕ → String) (taken : List String) (provider : String) (fuel n : ℕ) {id : String}
    → first_free decimal taken provider fuel n ≡ some id
    → has taken id ≡ false
unfolding first_free
first_free-taken decimal taken provider zero n h = absurd cc
first_free-taken decimal taken provider (suc fuel) n {id} h =
    elim (Bool-cases (has taken (numbered_id decimal provider n))) [
      | inr free ↦
          let e : some (numbered_id decimal provider n) ≡ some id = rw (first_free, free) at h in
          let same : numbered_id decimal provider n ≡ id = cc in rw (← same) free
      | inl busy ↦ first_free-taken decimal taken provider fuel (n + 1) (rw (first_free, busy) at h)
    ]

numbered_id-IsApart :
    (decimal : ℕ → String) (provider : String)
    → ((i j : ℕ) → i < j → (decimal i == decimal j) ≡ false)
    → IsApart (numbered_id decimal provider)
unfolding IsApart
numbered_id-IsApart decimal provider apart i j h =
    elim (Bool-cases (numbered_id decimal provider i == numbered_id decimal provider j)) [
      | inr other ↦ other
      | inl same ↦
          let whole =
            (eq_iff (numbered_id decimal provider i) (numbered_id decimal provider j)).0 same in
          let tail = append_cancel_left provider ("-" ++ decimal i) ("-" ++ decimal j) whole in
          let digits = append_cancel_left "-" (decimal i) (decimal j) tail in
          let equal = (eq_iff (decimal i) (decimal j)).1 digits in
          absurd (ground (arith, equal, apart i j h))
    ]

-- If different numbers have different texts, then DefaultAgentActorID ends:
-- after at most as many rounds as there are taken IDs, and one more, it has an ID that is not taken.
pub default_agent_actor_id_free :
    (decimal : ℕ → String) (taken : List String) (typed : String)
    → ((i j : ℕ) → i < j → (decimal i == decimal j) ≡ false)
    → (id : String) × (default_agent_actor_id decimal taken (suc (length taken)) typed ≡ some id)
      × (has taken id ≡ false)
unfolding default_agent_actor_id IsApart
default_agent_actor_id_free decimal taken typed apart =
    let provider = to_lower (trim_space typed) in
    elim (Bool-cases (has taken provider)) [
      | inr free ↦ (provider, rw (free) refl, free)
      | inl busy ↦ elim (Option-cases (first_free decimal taken provider (suc (length taken)) 2)) [
        | inr (id, found) ↦ (
          id,
          rw (busy) found,
          first_free-taken decimal taken provider (suc (length taken)) 2 found,
        )
        | inl never ↦
            let all = first_free-none decimal taken provider (suc (length taken)) 2 never in
            let few =
              pigeonhole (numbered_id decimal provider) taken 2 (suc (length taken))
                (numbered_id-IsApart decimal provider apart) all in
            absurd (omega (arith, few))
      ]
    ]
