-- ===== src/Tests/InboxTests.antt =====
-- An inbox with a limit, and a display name.
use agent_comms.Base.{◌≡◌, ◌⊎◌, refl, false, String, List, [], ◌∷◌, none}
use agent_comms.Base.Integers.{pos}
use agent_comms.Base.Map.{Map, get}
use agent_comms.Base.Text.{trim_space}
use agent_comms.Model.State.{State, Message, Agent, empty_state}
use agent_comms.Model.Zero.{zero_message, zero_clock}
use agent_comms.Inbox.Order.{InboxOptions, inbox}
use agent_comms.Inbox.Stored.{IsStored}
use agent_comms.Inbox.Listing.{Shows, inbox-Shows}
use agent_comms.Inbox.Resolve.{resolve_principal, principal, name_matches}
use agent_comms.Inbox.Named.{IsRegistered, resolve_principal_names_one}
use agent_comms.Tests.Fixtures.{owner}

abbrev message : Message
message = record zero_message { to = "ana" ∷ []; from = "bob" }

abbrev letters : State
letters = record empty_state {
  messages =
      ("m1", message)
      ∷ ("m2", record message { clock = record zero_clock { created_sequence = 7 } })
      ∷ ("m3", record message { to = "bob" ∷ [] })
      ∷ [];
}

abbrev newest : InboxOptions
newest = record { unread = false; from = ""; limit = pos 1 }

one_shown : (inbox letters "ana" newest).order ≡ "m2" ∷ []
unfolding inbox
one_shown = refl

letters-IsStored : IsStored letters.messages letters.messages
unfolding get
letters-IsStored = (refl, (refl, (refl, tt)))

inbox-Shows_example :
    (left : List String) × Shows letters "ana" newest (inbox letters "ana" newest) left
inbox-Shows_example = inbox-Shows letters "ana" newest letters-IsStored

abbrev agents : Map Agent
agents = ("a1", record owner { display_name = "Ana" }) ∷ ("a2", owner) ∷ []

by_display_name : resolve_principal agents " ANA " ≡ principal "a1"
unfolding resolve_principal
by_display_name = refl

resolve_principal_names_one_example :
    IsRegistered agents "a1"
    × (("a1" ≡ trim_space " ANA ")
        ⊎ ((get (trim_space " ANA ") agents ≡ none)
            × (name_matches (trim_space " ANA ") agents ≡ "a1" ∷ [])))
resolve_principal_names_one_example =
    resolve_principal_names_one agents " ANA " "a1" by_display_name
