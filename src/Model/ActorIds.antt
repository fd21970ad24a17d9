-- ===== src/Model/ActorIds.antt =====
-- internal/model/provider.go: the IDs that are made up for an agent. The texts of numbers are a
-- parameter; `names` are the recognised providers.
use Prim.Native.String.{◌++◌}
use text.Mathlib.Text.{starts_with}
use agent_comms.Base.{
  ℕ, zero, suc, ◌+◌, String, Bool, true, false, not, ◌||◌, ◌==◌, Option, none, some, List, any,
  if◌then◌else◌,
}
use agent_comms.Base.Text.{trim_space, to_lower, has}
use agent_comms.Model.Providers.{provider_of, actor_suffix}

-- `fmt.Sprintf("%s-%d", provider, n)`
abbrev pub numbered_id : (ℕ → String) → String → ℕ → String
numbered_id decimal provider n = provider ++ "-" ++ decimal n

-- The loop of DefaultAgentActorID from a number on; the fuel bounds its rounds, and `none` says that
-- it was used up.
unfoldable pub first_free : (ℕ → String) → List String → String → ℕ → ℕ → Option String
unfolding has
first_free decimal taken provider zero n = none
first_free decimal taken provider (suc fuel) n =
    let rest = first_free decimal taken provider fuel (n + 1) in
    if has taken (numbered_id decimal provider n)
    then rest
    else some (numbered_id decimal provider n)

-- DefaultAgentActorID, where the IDs taken are those of a list
unfoldable pub default_agent_actor_id : (ℕ → String) → List String → ℕ → String → Option String
unfolding has trim_space to_lower first_free
default_agent_actor_id decimal taken fuel typed =
    let provider = to_lower (trim_space typed) in
    if has taken provider then first_free decimal taken provider fuel 2 else some provider

abbrev is_some {ℓ} : {A : Type ℓ} → Option A → Bool
is_some none = false
is_some (some a) = true

abbrev names_provider : String → String → Bool
names_provider candidate provider = candidate == provider || starts_with candidate (provider ++ "-")

-- suggestedActorID
unfoldable pub suggested_actor_id : List String → String → Option String
unfolding trim_space to_lower provider_of actor_suffix any
suggested_actor_id names typed =
    let candidate = to_lower (trim_space typed) in
    let suggestion = "claude-" ++ candidate in
    if candidate == ""
    then none
    else if is_some (provider_of names candidate)
    then some candidate
    else if any (names_provider candidate) names
    then none
    else if not (actor_suffix candidate)
    then none
    else if is_some (provider_of names suggestion)
    then some suggestion
    else none
