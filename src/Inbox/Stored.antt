-- ===== src/Inbox/Stored.antt =====
-- internal/model/order.go: what the IDs and the entries of a map say of each other.
use agent_comms.Base.{
  ℕ, zero, suc, ◌≡◌, ◌≢◌, refl, ap, sym, ◌∙◌, inl, inr, String, true, ◌||◌, ◌==◌, none, some, List,
  [], ◌∷◌, map, take, Bool-cases, arith, eq_iff, if◌then◌else◌,
}
use agent_comms.Base.Map.{Map, get, get_or, put, get-put}
use agent_comms.Base.Text.{has}
use agent_comms.Model.State.{Message}
use agent_comms.Model.Zero.{zero_message}
use agent_comms.Inbox.Order.{
  InboxOptions, is_shown, select_messages, insert_entry, sort_entries, precedes, collect,
}

abbrev pub ids_of : Map Message → List String
ids_of ms = map (λ x. x.0) ms

-- Every entry of the list is the one that the map has for its ID.
abbrev pub IsStored : Map Message → Map Message → Type 0
IsStored base [] = Unit {0}
IsStored base ((id, m) ∷ rest) = (get id base ≡ some m) × IsStored base rest

module _ (base : Map Message) where
  stored_get :
      (id : String) (ms : Map Message) {m : Message}
      → IsStored base ms
      → get id ms ≡ some m
      → get id base ≡ some m
  unfolding get
  stored_get id [] stored h = absurd cc
  stored_get id ((j, v) ∷ ms) {m} (here, stored) h = elim (Bool-cases (j == id)) [
    | inr other ↦ stored_get id ms stored (rw (other) at h)
    | inl same ↦ let e : some v ≡ some m = rw (same) at h in rw (← (eq_iff j id).0 same) (here ∙ e)
  ]

  -- An entry of the map is found by the IDs of the list.
  pub get_stored :
      (id : String) (ms : Map Message)
      → IsStored base ms
      → get id ms ≡ (if has (ids_of ms) id then get id base else none)
  unfolding get has
  get_stored id [] stored = refl
  get_stored id ((j, v) ∷ ms) (here, stored) = elim (Bool-cases (j == id)) [
    | inr other ↦ rw (other) (get_stored id ms stored)
    | inl same ↦ rw (same) (rw (← (eq_iff j id).0 same) (sym here))
  ]

  pub select_messages-IsStored :
      (actor : String) (options : InboxOptions) (ms : Map Message)
      → IsStored base ms
      → IsStored base (select_messages actor options ms)
  unfolding select_messages
  select_messages-IsStored actor options [] stored = tt
  select_messages-IsStored actor options ((id, m) ∷ ms) (here, stored) =
      elim (Bool-cases (is_shown actor options m)) [
        | inl shown ↦ rw (shown) (here, select_messages-IsStored actor options ms stored)
        | inr hidden ↦ rw (hidden) (select_messages-IsStored actor options ms stored)
      ]

  insert_entry-IsStored :
      (sequence : Message → ℕ) (x : String × Message) (ms : Map Message)
      → get x.0 base ≡ some x.1
      → IsStored base ms
      → IsStored base (insert_entry sequence x ms)
  unfolding insert_entry
  insert_entry-IsStored sequence x [] h stored = (h, tt)
  insert_entry-IsStored sequence x (y ∷ ms) h (here, stored) =
      elim (Bool-cases (precedes sequence y x)) [
        | inl first ↦ rw (first) (here, insert_entry-IsStored sequence x ms h stored)
        | inr later ↦ rw (later) (h, (here, stored))
      ]

  pub sort_entries-IsStored :
      (sequence : Message → ℕ) (ms : Map Message)
      → IsStored base ms
      → IsStored base (sort_entries sequence ms)
  unfolding sort_entries
  sort_entries-IsStored sequence [] stored = tt
  sort_entries-IsStored sequence (x ∷ ms) (here, stored) =
      insert_entry-IsStored sequence x (sort_entries sequence ms) here
        (sort_entries-IsStored sequence ms stored)

has-insert_entry :
    (sequence : Message → ℕ) (x : String × Message) (ms : Map Message) (id : String)
    → has (ids_of (insert_entry sequence x ms)) id ≡ has (ids_of (x ∷ ms)) id
unfolding insert_entry has
has-insert_entry sequence x [] id = refl
has-insert_entry sequence x (y ∷ ms) id = elim (Bool-cases (precedes sequence y x)) [
  | inr later ↦ rw (later) refl
  | inl first ↦ rw (first) rw (has-insert_entry sequence x ms id) (ground arith)
]

-- A sorted map has the same IDs.
pub has-sort_entries :
    (sequence : Message → ℕ) (ms : Map Message) (id : String)
    → has (ids_of (sort_entries sequence ms)) id ≡ has (ids_of ms) id
unfolding sort_entries has
has-sort_entries sequence [] id = refl
has-sort_entries sequence (x ∷ ms) id =
    has-insert_entry sequence x (sort_entries sequence ms) id
    ∙ ap (λ b. x.0 == id || b) (has-sort_entries sequence ms id)

pub has-take :
    (n : ℕ) (ids : List String) (id : String) → has (take n ids) id ≡ true → has ids id ≡ true
unfolding has take
has-take zero ids id h = absurd (ground arith)
has-take (suc n) [] id h = h
has-take (suc n) (x ∷ ids) id h = elim (Bool-cases (x == id)) [
  | inl here ↦ rw (here) refl
  | inr later ↦ rw (later) (has-take n ids id (rw (later) at h))
]

pub get-collect :
    (ms : Map Message) (ids : List String) (into : Map Message) (id : String)
    → get id (collect ms ids into)
      ≡ (if has ids id then some (get_or zero_message id ms) else get id into)
unfolding collect has
get-collect ms [] into id = refl
get-collect ms (x ∷ ids) into id =
    rw (get-collect ms ids (put x (get_or zero_message x ms) into) id) rw
      (get-put x id (get_or zero_message x ms) into)
      (elim (Bool-cases (x == id)) [
        | inr later ↦ rw (later) refl
        | inl here ↦ elim (Bool-cases (has ids id)) [
          | inl again ↦ rw (here) rw (again) refl
          | inr once ↦
              let e = (eq_iff x id).0 here in
              rw (here) rw (once) (ap (λ y. some (get_or zero_message y ms)) e)
        ]
      ])

pub has-get : (id : String) (ms : Map Message) → has (ids_of ms) id ≡ true → get id ms ≢ none
unfolding has get
has-get id [] h missing = absurd (ground arith)
has-get id ((j, v) ∷ ms) h missing = elim (Bool-cases (j == id)) [
  | inl here ↦ let e : some v ≡ none = rw (here) at missing in absurd cc
  | inr later ↦ has-get id ms (rw (later) at h) (rw (later) at missing)
]
