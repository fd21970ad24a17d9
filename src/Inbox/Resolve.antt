-- ===== src/Inbox/Resolve.antt =====
-- internal/model/resolve.go: a reference that a person types is an actor ID or a display name.
use Prim.Native.String.{compare}
use Prim.Native.Nat.{Ordering}
use agent_comms.Base.{
  String, Bool, true, false, ◌==◌, Option, none, some, List, [], ◌∷◌, if◌then◌else◌,
}
use agent_comms.Base.Map.{Map, get}
use agent_comms.Base.Text.{trim_space, equal_fold}
use agent_comms.Model.State.{Agent}

pub data Resolution : Type 0 where
  principal : String → Resolution
  missing nobody : Resolution
  ambiguous : List String → Resolution

-- The IDs of the agents that a display name matches.
unfoldable pub name_matches : String → Map Agent → List String
unfolding equal_fold trim_space
name_matches reference [] = []
name_matches reference ((id, agent) ∷ rest) =
    let others = name_matches reference rest in
    if equal_fold (trim_space agent.display_name) reference then id ∷ others else others

abbrev after_text : String → String → Bool
after_text s t = elim (compare s t) [ Ordering.gt ↦ true | _ ↦ false ]

unfoldable pub insert_text : String → List String → List String
insert_text s [] = s ∷ []
insert_text s (t ∷ ts) = if after_text s t then t ∷ insert_text s ts else s ∷ t ∷ ts

-- sort.Strings
unfoldable pub sort_texts : List String → List String
unfolding insert_text
sort_texts [] = []
sort_texts (s ∷ ss) = insert_text s (sort_texts ss)

abbrev pub by_number : List String → Resolution
by_number [] = nobody
by_number (id ∷ []) = principal id
by_number (i ∷ j ∷ rest) = ambiguous (i ∷ j ∷ rest)

abbrev by_id : String → Option Agent → Resolution → Resolution
by_id reference (some a) other = principal reference
by_id reference none other = other

-- ResolvePrincipal
unfoldable pub resolve_principal : Map Agent → String → Resolution
unfolding trim_space get name_matches sort_texts
resolve_principal agents typed =
    let reference = trim_space typed in
    if reference == ""
    then missing
    else by_id reference (get reference agents)
        (by_number (sort_texts (name_matches reference agents)))
