-- ===== src/Inbox/Named.antt =====
-- internal/model/resolve.go: what a resolved reference names.
use agent_comms.Base.{
  ℕ, suc, ◌≡◌, sym, ◌⊎◌, inl, inr, refl, ap, ◌∙◌, String, none, some, List, [], ◌∷◌, length, ◌==◌,
  arith, Bool-cases, Option-cases,
}
use text.Mathlib.TextPositions.{eq_refl}
use agent_comms.Base.Map.{Map, get}
use agent_comms.Base.Text.{trim_space, equal_fold}
use agent_comms.Model.State.{Agent}
use agent_comms.Inbox.Resolve.{
  principal, name_matches, insert_text, sort_texts, by_number, resolve_principal,
}

-- Some agent stands under the ID.
abbrev pub IsRegistered : Map Agent → String → Type 0
IsRegistered agents id = (a : Agent) × (get id agents ≡ some a)

abbrev All : (String → Type 0) → List String → Type 0
All P [] = Unit {0}
All P (x ∷ xs) = P x × All P xs

abbrev map_all :
    {P Q : String → Type 0} → ((x : String) → P x → Q x) → (xs : List String) → All P xs → All Q xs
map_all f [] h = tt
map_all f (x ∷ xs) (here, rest) = (f x here, map_all f xs rest)

IsRegistered-later :
    (k : String) (v : Agent) (agents : Map Agent) (id : String)
    → IsRegistered agents id
    → IsRegistered ((k, v) ∷ agents) id
unfolding get
IsRegistered-later k v agents id (a, there) = elim (Bool-cases (k == id)) [
  | inl same ↦ (v, rw (same) refl)
  | inr other ↦ (a, rw (other) there)
]

name_matches-IsRegistered :
    (reference : String) (agents : Map Agent)
    → All (IsRegistered agents) (name_matches reference agents)
unfolding name_matches get
name_matches-IsRegistered reference [] = tt
name_matches-IsRegistered reference ((k, v) ∷ agents) =
    let rest =
      map_all (IsRegistered-later k v agents) (name_matches reference agents)
        (name_matches-IsRegistered reference agents) in
    elim (Bool-cases (equal_fold (trim_space v.display_name) reference)) [
      | inl match_here ↦ rw (match_here) ((v, rw (eq_refl k) refl), rest)
      | inr other ↦ rw (other) rest
    ]

length-insert_text : (s : String) (ts : List String) → length (insert_text s ts) ≡ suc (length ts)
unfolding insert_text
length-insert_text s [] = refl
length-insert_text s (t ∷ ts) = ground (arith, length-insert_text s ts)

length-sort_texts : (ts : List String) → length (sort_texts ts) ≡ length ts
unfolding sort_texts
length-sort_texts [] = refl
length-sort_texts (t ∷ ts) = length-insert_text t (sort_texts ts) ∙ ap suc (length-sort_texts ts)

-- Two names are never one.
by_number_many :
    (n : ℕ) (sorted : List String) (id : String)
    → length sorted ≡ suc (suc n)
    → ¬ (by_number sorted ≡ principal id)
by_number_many n [] id two h = absurd (omega arith)
by_number_many n (x ∷ []) id two h = absurd (omega arith)
by_number_many n (x ∷ y ∷ rest) id two h = cc

name_matches_one :
    (ts : List String) (id : String) → by_number (sort_texts ts) ≡ principal id → ts ≡ id ∷ []
unfolding sort_texts insert_text
name_matches_one [] id h = cc
name_matches_one (t ∷ []) id h = cc
name_matches_one (t ∷ u ∷ rest) id h = absurd (
    by_number_many (length rest) (sort_texts (t ∷ u ∷ rest)) id (length-sort_texts (t ∷ u ∷ rest))
      h)

-- A reference that ResolvePrincipal turns into an ID is, without the spaces around it, either that
-- very ID of a registered agent, or no agent's ID and, whatever the case of its letters, the display
-- name of exactly one agent, registered under the ID that is answered.
pub resolve_principal_names_one :
    (agents : Map Agent) (typed id : String)
    → resolve_principal agents typed ≡ principal id
    → IsRegistered agents id
      × ((id ≡ trim_space typed)
          ⊎ ((get (trim_space typed) agents ≡ none)
              × (name_matches (trim_space typed) agents ≡ id ∷ [])))
unfolding resolve_principal
resolve_principal_names_one agents typed id h =
    let reference = trim_space typed in
    elim (Bool-cases (reference == "")) [
      | inl blank ↦ absurd (ground (arith, blank))
      | inr given ↦ elim (Option-cases (get reference agents)) [
        | inr (a, there) ↦
            let named : principal reference ≡ principal id =
              rw (resolve_principal, given, there) at h in
            let same : reference ≡ id = cc in ((a, rw (← same) there), inl (sym same))
        | inl unknown ↦
            let by_name : by_number (sort_texts (name_matches reference agents)) ≡ principal id =
              rw (resolve_principal, given, unknown) at h in
            let one = name_matches_one (name_matches reference agents) id by_name in
            let found = name_matches-IsRegistered reference agents in
            ((rw (one) at found).0, inr (unknown, one))
      ]
    ]
