-- ===== src/Inbox/Sorted.antt =====
-- internal/model/order.go, SortedIDsBySequence: the entries are kept, and stand in order.
use mathlib.Core.List.{Perm}
use mathlib.Core.List.Perm
use agent_comms.Base.{ℕ, ◌≤◌, inl, inr, String, [], ◌∷◌, map, arith, Bool-cases}
use agent_comms.Base.Map.{Map}
use agent_comms.Inbox.Order.{precedes, insert_entry, sort_entries, sorted_ids_by_sequence}

module _ {ℓ} {V : Type ℓ} (sequence : V → ℕ) where
  insert_entry-perm :
      (x : String × V) (xs : Map V)
      → Perm (map (λ y. y.0) (insert_entry sequence x xs)) (x.0 ∷ map (λ y. y.0) xs)
  unfolding insert_entry
  insert_entry-perm x [] = Perm.rfl
  insert_entry-perm x (y ∷ ys) = elim (Bool-cases (precedes sequence y x)) [
    | inl first ↦ rw (first) (
        Perm.trans (Perm.cons y.0 (insert_entry-perm x ys)) (Perm.swap x.0 y.0 (map (λ z. z.0) ys)))
    | inr later ↦ rw (later) Perm.rfl
  ]

  -- The sorted IDs are those of the map.
  pub sorted_ids-perm : (xs : Map V) → Perm (sorted_ids_by_sequence sequence xs) (map (λ y. y.0) xs)
  unfolding sorted_ids_by_sequence sort_entries
  sorted_ids-perm [] = Perm.rfl
  sorted_ids-perm (x ∷ xs) =
      Perm.trans (insert_entry-perm x (sort_entries sequence xs))
        (Perm.cons x.0 (sorted_ids-perm xs))

  -- No entry was created before the one that follows it; from a bound on.
  abbrev pub Falls : ℕ → Map V → Type 0
  Falls n [] = Unit {0}
  Falls n ((i, v) ∷ xs) = (sequence v ≤ n) × Falls (sequence v) xs

  abbrev pub IsNewestFirst : Map V → Type 0
  IsNewestFirst [] = Unit {0}
  IsNewestFirst ((i, v) ∷ xs) = Falls (sequence v) xs

  insert_entry-Falls :
      (n : ℕ) (x : String × V) (xs : Map V)
      → sequence x.1 ≤ n
      → Falls n xs
      → Falls n (insert_entry sequence x xs)
  unfolding insert_entry
  insert_entry-Falls n (i, v) [] h falls = (h, tt)
  insert_entry-Falls n (i, v) ((j, w) ∷ ys) h (here, falls) =
      elim (Bool-cases (precedes sequence (j, w) (i, v))) [
        | inl first ↦
            rw (first) (here, insert_entry-Falls (sequence w) (i, v) ys (ground arith) falls)
        | inr later ↦ rw (later) (h, (ground arith, falls))
      ]

  insert_entry-IsNewestFirst :
      (x : String × V) (xs : Map V) → IsNewestFirst xs → IsNewestFirst (insert_entry sequence x xs)
  unfolding insert_entry
  insert_entry-IsNewestFirst (i, v) [] sorted = tt
  insert_entry-IsNewestFirst (i, v) ((j, w) ∷ ys) sorted =
      elim (Bool-cases (precedes sequence (j, w) (i, v))) [
        | inl first ↦ rw (first) (insert_entry-Falls (sequence w) (i, v) ys (ground arith) sorted)
        | inr later ↦ rw (later) (ground arith, sorted)
      ]

  pub sort_entries-IsNewestFirst : (xs : Map V) → IsNewestFirst (sort_entries sequence xs)
  unfolding sort_entries
  sort_entries-IsNewestFirst [] = tt
  sort_entries-IsNewestFirst (x ∷ xs) =
      insert_entry-IsNewestFirst x (sort_entries sequence xs) (sort_entries-IsNewestFirst xs)
