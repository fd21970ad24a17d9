-- ===== src/Inbox/Order.antt =====
-- internal/model/order.go: entities in the reverse order of their events, and a principal's inbox.
use Prim.Native.String.{compare}
use Prim.Native.Nat.{Ordering}
use agent_comms.Base.{
  ℕ, String, Bool, true, false, not, ◌&&◌, ◌||◌, ◌==◌, List, [], ◌∷◌, map, ltb, take, length, any,
  if◌then◌else◌,
}
use agent_comms.Base.Map.{Map, get_or, put}
use agent_comms.Base.Integers.{ℤ, is_not_positive, to_nat}
use agent_comms.Base.Text.{has}
use agent_comms.Model.Payloads.{RecipientState}
use agent_comms.Model.State.{State, Message}
use agent_comms.Model.Zero.{zero_message}

abbrev before_text : String → String → Bool
before_text s t = elim (compare s t) [ Ordering.lt ↦ true | _ ↦ false ]

module _ {ℓ} {V : Type ℓ} (sequence : V → ℕ) where
  -- The comparison of the sort: a later event first, the smaller ID of the same event.
  abbrev pub precedes : String × V → String × V → Bool
  precedes (i, v) (j, w) =
      if ltb (sequence w) (sequence v)
      then true
      else if ltb (sequence v) (sequence w)
      then false
      else before_text i j

  unfoldable pub insert_entry : String × V → Map V → Map V
  insert_entry x [] = x ∷ []
  insert_entry x (y ∷ ys) = if precedes y x then y ∷ insert_entry x ys else x ∷ y ∷ ys

  -- sort.Slice
  unfoldable pub sort_entries : Map V → Map V
  unfolding insert_entry
  sort_entries [] = []
  sort_entries (x ∷ xs) = insert_entry x (sort_entries xs)

  unfoldable pub sorted_ids_by_sequence : Map V → List String
  unfolding sort_entries
  sorted_ids_by_sequence values = map (λ x. x.0) (sort_entries values)

pub record InboxOptions : Type 0 where
  pub unread : Bool
  pub from : String
  pub limit : ℤ

abbrev pub is_pending : String → RecipientState → Bool
is_pending actor r = r.principal == actor && r.status == "PENDING"

unfoldable pub is_addressed : String → Message → Bool
unfolding has
is_addressed actor m = has m.to actor

unfoldable pub is_shown : String → InboxOptions → Message → Bool
unfolding is_addressed any
is_shown actor options m =
    is_addressed actor m
    && (not options.unread || any (is_pending actor) m.recipients)
    && (options.from == "" || m.from == options.from)

unfoldable pub any_addressed : String → Map Message → Bool
unfolding is_addressed
any_addressed actor [] = false
any_addressed actor ((id, m) ∷ rest) = is_addressed actor m || any_addressed actor rest

unfoldable pub select_messages : String → InboxOptions → Map Message → Map Message
unfolding is_shown
select_messages actor options [] = []
select_messages actor options ((id, m) ∷ rest) =
    let others = select_messages actor options rest in
    if is_shown actor options m then (id, m) ∷ others else others

pub record InboxView : Type 0 where
  pub messages : Map Message
  pub order : List String
  pub addressed : Bool

abbrev pub created_sequence : Message → ℕ
created_sequence m = m.clock.created_sequence

-- The messages of these IDs, put into a map one after the other.
unfoldable pub collect : Map Message → List String → Map Message → Map Message
unfolding get_or put
collect messages [] into = into
collect messages (id ∷ ids) into =
    collect messages ids (put id (get_or zero_message id messages) into)

-- Inbox, from the selected messages on
unfoldable pub limit_view : ℤ → Bool → Map Message → List String → InboxView
unfolding take collect
limit_view limit addressed messages order =
    if not (is_not_positive limit) && ltb (to_nat limit) (length order)
    then record {
      messages = collect messages (take (to_nat limit) order) [];
      order = take (to_nat limit) order;
      addressed = addressed;
    }
    else record { messages = messages; order = order; addressed = addressed }

-- Inbox
unfoldable pub inbox : State → String → InboxOptions → InboxView
unfolding select_messages sorted_ids_by_sequence limit_view any_addressed
inbox st actor options =
    let messages = select_messages actor options st.messages in
    limit_view options.limit (any_addressed actor st.messages) messages
      (sorted_ids_by_sequence created_sequence messages)
