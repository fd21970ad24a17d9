-- ===== src/Model/Providers.antt =====
-- internal/model/provider.go: which agent IDs a project accepts. Go's regular expressions are tests
-- on the characters; the errors stand without their suggestions.
use Prim.Native.Char.{code}
use Prim.Native.String.{◌++◌, len, count}
use text.Mathlib.Text.{starts_with}
use agent_comms.Base.{
  ℕ, String, Bool, false, not, ◌&&◌, ◌||◌, ◌==◌, Option, none, some, List, [], ◌∷◌, map, ltb, leb,
  if◌then◌else◌,
}
use agent_comms.Base.Map.{Map}
use agent_comms.Base.Text.{trim_space, to_lower, cut_prefix, every, has}
use agent_comms.Model.State.{State, Provider}

unfoldable pub built_in_providers : List String
built_in_providers = "claude" ∷ "codex" ∷ "opencode" ∷ []

unfoldable pub reserved_provider_names : List String
reserved_provider_names =
    "agent" ∷ "human" ∷ "system" ∷ "owner" ∷ "orchestrator" ∷ "observer" ∷ "worker" ∷ "agc"
    ∷ "agentcomms" ∷ "unknown" ∷ "none" ∷ "all" ∷ []

abbrev join_lists : List String → List String → List String
join_lists [] ys = ys
join_lists (x ∷ xs) ys = x ∷ join_lists xs ys

-- NewProviderSet: the built-ins and the extra names, as a list.
unfoldable pub new_provider_set : List String → List String
unfolding to_lower trim_space built_in_providers
new_provider_set extra =
    join_lists built_in_providers (map (λ name. to_lower (trim_space name)) extra)

unfoldable pub active_names : Map Provider → List String
active_names [] = []
active_names ((name, p) ∷ rest) =
    let later = active_names rest in if p.status == "ACTIVE" then name ∷ later else later

unfoldable pub registrable_providers : State → List String
unfolding new_provider_set active_names
registrable_providers st = new_provider_set (active_names st.providers)

unfoldable pub provider_set_has : List String → String → Bool
unfolding has to_lower trim_space
provider_set_has names name = has names (to_lower (trim_space name))

unfoldable pub is_built_in_provider : String → Bool
unfolding has to_lower trim_space built_in_providers
is_built_in_provider name = has built_in_providers (to_lower (trim_space name))

abbrev is_lower_or_digit : ℕ → Bool
is_lower_or_digit n = (leb b'a' n && leb n b'z') || (leb b'0' n && leb n b'9')

-- ^[a-z0-9][a-z0-9-]*$
unfoldable pub actor_suffix : String → Bool
unfolding every
actor_suffix String.[] = false
actor_suffix (String.◌∷◌ c s) =
    is_lower_or_digit (code c) && every (λ n. is_lower_or_digit n || (leb n b'-' && leb b'-' n)) s

-- ^[a-z][a-z0-9]{1,23}$
unfoldable pub provider_name : String → Bool
unfolding every
provider_name String.[] = false
provider_name (String.◌∷◌ c s) =
    leb b'a' (code c)
    && leb (code c) b'z'
    && every is_lower_or_digit s
    && leb 1 (count s)
    && leb (count s) 23

-- The loop for the longest provider that the ID starts with.
unfoldable pub longest_provider : String → List String → String → String
longest_provider actor_id [] best = best
longest_provider actor_id (p ∷ ps) best =
    longest_provider actor_id ps
      (if starts_with actor_id (p ++ "-") && ltb (len best) (len p) then p else best)

abbrev suffix_fits : Option String → Bool
unfolding actor_suffix
suffix_fits none = false
suffix_fits (some s) = actor_suffix s

unfoldable pub provider_of : List String → String → Option String
unfolding has to_lower longest_provider suffix_fits cut_prefix actor_suffix
provider_of names actor_id =
    if actor_id == "" || not (actor_id == to_lower actor_id)
    then none
    else if has names actor_id
    then some actor_id
    else (let best = longest_provider actor_id names "" in
        if best == ""
        then none
        else if suffix_fits (cut_prefix actor_id (best ++ "-"))
        then some best
        else none)

-- `none` stands for no error.
unfoldable pub validate_provider_name : String → Option String
unfolding is_built_in_provider provider_name has reserved_provider_names
validate_provider_name name =
    if is_built_in_provider name
    then some "is a built-in provider and is always accepted"
    else if not (provider_name name)
    then some "provider name must be 2-24 lower-case letters and digits"
    else if has reserved_provider_names name
    then some "provider name is reserved"
    else none

abbrev is_control : ℕ → Bool
is_control n = ltb n 32 || (leb 127 n && leb n 159)

unfoldable pub validate_provider_text : String → String → ℕ → Option String
unfolding every
validate_provider_text field value limit =
    if ltb limit (count value)
    then some ("provider " ++ field ++ " is too long")
    else if not (every (λ n. not (is_control n)) value)
    then some ("provider " ++ field ++ " must not contain control characters")
    else none
