-- ===== src/Protocol/Scopes.antt =====
-- internal/protocol/transitions.go: paths that a lease covers, and paths that a scope allows.
use Prim.Native.String.{◌++◌}
use text.Mathlib.Text.{starts_with}
use agent_comms.Base.{String, Bool, ◌||◌, ◌==◌, List, any, all}

-- One path lies under the other, or one of them is the wildcard.
unfoldable pub path_overlap : String → String → Bool
path_overlap x y =
    x == y || x == "*" || y == "*" || starts_with x (y ++ "/") || starts_with y (x ++ "/")

unfoldable pub overlap : List String → List String → Bool
unfolding path_overlap any
overlap a b = any (λ x. any (λ y. path_overlap x y) b) a

unfoldable pub scope_covers : String → String → Bool
scope_covers scope resource =
    scope == "*" || scope == resource || starts_with resource (scope ++ "/")

unfoldable pub scope_allows : List String → List String → Bool
unfolding scope_covers any all
scope_allows scopes resources =
    all (λ resource. any (λ scope. scope_covers scope resource) scopes) resources
