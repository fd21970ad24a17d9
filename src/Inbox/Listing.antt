-- ===== src/Inbox/Listing.antt =====
-- internal/model/order.go, Inbox: which messages are shown, and in which order.
use mathlib.Core.List.{Perm, ◌++◌, append-nil}
use agent_comms.Base.{
  ℕ, ◌≤◌, ◌≡◌, ◌≢◌, refl, sym, ◌∙◌, ◌⊎◌, inl, inr, String, Bool, true, false, not, ◌&&◌, ◌||◌, none,
  List, [], ◌∷◌, leb, ltb, length, take, drop, take-drop, length-take, arith, Bool-cases,
  Option-cases, if◌then◌else◌,
}
use agent_comms.Base.Map.{Map, get, get_or, get_or-get}
use agent_comms.Base.Text.{has}
use agent_comms.Base.Integers.{is_not_positive, to_nat}
use agent_comms.Model.State.{State, Message}
use agent_comms.Model.Zero.{zero_message}
use agent_comms.Inbox.Order.{
  InboxOptions, InboxView, is_shown, any_addressed, select_messages, sort_entries,
  sorted_ids_by_sequence, collect, limit_view, inbox, created_sequence,
}
use agent_comms.Inbox.Stored.{
  ids_of, IsStored, get_stored, select_messages-IsStored, sort_entries-IsStored, has-sort_entries,
  has-take, has-get, get-collect,
}
use agent_comms.Inbox.Sorted.{Falls, IsNewestFirst, sorted_ids-perm, sort_entries-IsNewestFirst}

-- The IDs of the messages that the options show the actor, in the order of the map.
abbrev pub shown_ids : String → InboxOptions → Map Message → List String
shown_ids actor options [] = []
shown_ids actor options ((id, m) ∷ rest) =
    if is_shown actor options m
    then id ∷ shown_ids actor options rest
    else shown_ids actor options rest

ids_of-select_messages :
    (actor : String) (options : InboxOptions) (ms : Map Message)
    → ids_of (select_messages actor options ms) ≡ shown_ids actor options ms
unfolding select_messages
ids_of-select_messages actor options [] = refl
ids_of-select_messages actor options ((id, m) ∷ ms) = elim (Bool-cases (is_shown actor options m)) [
  | inl shown ↦ rw (shown) rw (ids_of-select_messages actor options ms) refl
  | inr hidden ↦ rw (hidden) (ids_of-select_messages actor options ms)
]

module _ (base : Map Message) where
  abbrev pub posted : String → ℕ
  posted id = created_sequence (get_or zero_message id base)

  -- No message was posted after the one before it, from a bound on.
  abbrev pub FallsFrom : ℕ → List String → Type 0
  FallsFrom n [] = Unit {0}
  FallsFrom n (id ∷ ids) = (posted id ≤ n) × FallsFrom (posted id) ids

  abbrev pub AreNewestFirst : List String → Type 0
  AreNewestFirst [] = Unit {0}
  AreNewestFirst (id ∷ ids) = FallsFrom (posted id) ids

  Falls-FallsFrom :
      (n : ℕ) (ms : Map Message)
      → IsStored base ms
      → Falls created_sequence n ms
      → FallsFrom n (ids_of ms)
  Falls-FallsFrom n [] stored falls = tt
  Falls-FallsFrom n ((id, m) ∷ ms) (here, stored) (low, falls) =
      rw (get_or-get zero_message id base here)
        (low, Falls-FallsFrom (created_sequence m) ms stored falls)

  IsNewestFirst-ids :
      (ms : Map Message)
      → IsStored base ms
      → IsNewestFirst created_sequence ms
      → AreNewestFirst (ids_of ms)
  IsNewestFirst-ids [] stored falls = tt
  IsNewestFirst-ids ((id, m) ∷ ms) (here, stored) falls =
      rw (get_or-get zero_message id base here)
        (Falls-FallsFrom (created_sequence m) ms stored falls)

-- What a view shows of a state, with the messages `left` out by the limit.
pub record Shows (st : State) (actor : String) (options : InboxOptions) (view : InboxView)
    (left : List String) : Type 0 where
  pub exactly : Perm (view.order ++ left) (shown_ids actor options st.messages)
  pub in_order : AreNewestFirst st.messages (view.order ++ left)
  pub contents :
      (id : String)
      → get id view.messages ≡ (if has view.order id then get id st.messages else none)
  pub cut :
      ((left ≡ [])
        × ((is_not_positive options.limit || leb (length view.order) (to_nat options.limit))
            ≡ true))
      ⊎ ((is_not_positive options.limit ≡ false) × (length view.order ≡ to_nat options.limit))

-- The contents of a view that is cut.
get-cut :
    (base selected : Map Message) (n : ℕ) (ids : List String) (id : String)
    → ((j : String) → get j selected ≡ (if has ids j then get j base else none))
    → ((j : String) → has ids j ≡ true → get j selected ≢ none)
    → get id (collect selected (take n ids) [])
      ≡ (if has (take n ids) id then get id base else none)
unfolding get get_or
get-cut base selected n ids id found there =
    get-collect selected (take n ids) [] id ∙ (elim (Bool-cases (has (take n ids) id)) [
      | inr out ↦ rw (out) refl
      | inl kept ↦
          let whole = has-take n ids id kept in
          elim (Option-cases (get id selected)) [
            | inl missing ↦ absurd (there id whole missing)
            | inr (m, held) ↦
                let e : get id selected ≡ get id base = rw (whole) at (found id) in
                rw (kept) rw (get_or-get zero_message id selected held) (sym held ∙ e)
          ]
    ])

module _ (st : State) (actor : String) (options : InboxOptions)
    (stored : IsStored st.messages st.messages) where
  selected : Map Message
  selected = select_messages actor options st.messages

  order : List String
  order = sorted_ids_by_sequence created_sequence selected

  limit : ℕ
  limit = to_nat options.limit

  is_cut : Bool
  is_cut = not (is_not_positive options.limit) && ltb limit (length order)

  order-perm : Perm order (shown_ids actor options st.messages)
  unfolding order selected
  order-perm =
      rw (← ids_of-select_messages actor options st.messages)
        (sorted_ids-perm created_sequence selected)

  order-AreNewestFirst : AreNewestFirst st.messages order
  unfolding order selected sorted_ids_by_sequence
  order-AreNewestFirst =
      IsNewestFirst-ids st.messages (sort_entries created_sequence selected)
        (sort_entries-IsStored st.messages created_sequence selected
          (select_messages-IsStored st.messages actor options st.messages stored))
        (sort_entries-IsNewestFirst created_sequence selected)

  has-order : (id : String) → has order id ≡ has (ids_of selected) id
  unfolding order sorted_ids_by_sequence
  has-order id = has-sort_entries created_sequence selected id

  get-selected :
      (id : String) → get id selected ≡ (if has order id then get id st.messages else none)
  unfolding selected
  get-selected id = rw (has-order id) (
      get_stored st.messages id selected
        (select_messages-IsStored st.messages actor options st.messages stored))

  cut_view : InboxView
  cut_view = record {
    messages = collect selected (take limit order) [];
    order = take limit order;
    addressed = any_addressed actor st.messages;
  }

  whole_view : InboxView
  whole_view = record {
    messages = selected;
    order = order;
    addressed = any_addressed actor st.messages;
  }

  cut-Shows : is_cut ≡ true → Shows st actor options cut_view (drop limit order)
  unfolding cut_view limit is_cut
  cut-Shows h = record {
    exactly = rw (take-drop limit order) order-perm;
    in_order = rw (take-drop limit order) order-AreNewestFirst;
    contents = λ id.
        get-cut st.messages selected limit order id get-selected
          (λ j there. has-get j selected (rw (has-order j) at there));
    cut = inr (positive _ _ h, length-take limit order (below _ h));
  }
    where
      positive : (a b : Bool) → (not a && b) ≡ true → a ≡ false
      positive a b h = ground arith

      below : (a : Bool) → (not a && ltb limit (length order)) ≡ true → limit ≤ length order
      below a h = ground arith

  whole-Shows : is_cut ≡ false → Shows st actor options whole_view []
  unfolding whole_view limit is_cut
  whole-Shows h = record {
    exactly = rw (append-nil order) order-perm;
    in_order = rw (append-nil order) order-AreNewestFirst;
    contents = get-selected;
    cut = inl (refl, short (is_not_positive options.limit) limit (length order) h);
  }
    where
      short : (a : Bool) (n m : ℕ) → (not a && ltb n m) ≡ false → (a || leb m n) ≡ true
      short a n m h = ground arith

  -- If every message is found under its ID, as in a map, then for an inbox and the IDs that a limit has
  -- left out of it: its order and those IDs together are the IDs of exactly the messages that are
  -- addressed to the actor and pass the filters for unread messages and for the sender, each as often
  -- as in the map, and none was posted after the one before it; its map has the messages of its order
  -- and no other; and nothing is left out of it, with its number within the limit if there is one,
  -- or it is full.
  pub inbox-Shows : (left : List String) × Shows st actor options (inbox st actor options) left
  unfolding inbox limit_view selected order limit is_cut cut_view whole_view
  inbox-Shows = elim (Bool-cases is_cut) [
    | inl cut ↦ (drop limit order, rw (cut) (cut-Shows cut))
    | inr whole ↦ ([], rw (whole) (whole-Shows whole))
  ]
