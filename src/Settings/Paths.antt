-- ===== src/Settings/Paths.antt =====
-- internal/protocol/transitions.go: overlapping paths and scopes.

use agent_comms.Base.{
  ◌≡◌, refl, sym, ap, ◌∙◌, String, Bool, false, ◌||◌, List, [], ◌∷◌, arith, eq_iff, any,
}
use agent_comms.Protocol.Scopes.{path_overlap, overlap}

path_overlap_comm : (x y : String) → path_overlap x y ≡ path_overlap y x
unfolding path_overlap
path_overlap_comm x y = ground (arith, eq_iff x y, eq_iff y x)

any_or : {A : Type 0} (p q : A → Bool) (l : List A) → any (λ a. p a || q a) l ≡ (any p l || any q l)
unfolding any
any_or p q [] = refl
any_or p q (a ∷ l) = ground (arith, any_or p q l)

any_ext : {A : Type 0} (p q : A → Bool) (l : List A) → ((a : A) → p a ≡ q a) → any p l ≡ any q l
unfolding any
any_ext p q [] same = refl
any_ext p q (a ∷ l) same = ground (arith, same a, any_ext p q l same)

any_never : {A : Type 0} (l : List A) → any (λ a. false) l ≡ false
unfolding any
any_never [] = refl
any_never (a ∷ l) = ground (arith, any_never l)

any_swap :
    {A B : Type 0} (r : A → B → Bool) (l : List A) (m : List B)
    → any (λ a. any (r a) m) l ≡ any (λ b. any (λ a. r a b) l) m
unfolding any
any_swap r [] m = sym (any_never m)
any_swap r (a ∷ l) m =
    ap (λ t. any (r a) m || t) (any_swap r l m) ∙ sym (any_or (r a) (λ b. any (λ x. r x b) l) m)

-- Whether two lists of paths overlap does not depend on which of them asks.
pub overlap_comm : (a b : List String) → overlap a b ≡ overlap b a
unfolding overlap
overlap_comm a b =
    any_swap path_overlap a b ∙ any_ext _ _ b (λ y. any_ext _ _ a (λ x. path_overlap_comm x y))
