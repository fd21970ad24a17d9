-- ===== src/Base/Map.antt =====
-- Go's `map[string]V` as a list of pairs; the order of the list is the order of a `range` loop.
use Prim.Native.String.{String}
use mathlib.Core.Path.{◌≡◌, refl}
use mathlib.Core.Logic.{inl, inr}
use mathlib.Core.Bool.{false}
use mathlib.Core.Option.{Option, none, some}
use mathlib.Core.List.{List, [], ◌∷◌}
use native.Mathlib.Omega.{arith}
use text.Mathlib.Text.{◌==◌}
use text.Mathlib.TextEquality.{eq_iff}
use text.Mathlib.TextPositions.{eq_refl}
use agent_comms.Base.Tests.{if◌then◌else◌, Bool-cases}

abbrev pub Map {ℓ} : Type ℓ → Type ℓ
Map V = List (String × V)

module _ {ℓ} {V : Type ℓ} where
  -- `v, ok := m[k]`
  unfoldable pub get : String → Map V → Option V
  get k [] = none
  get k ((j, v) ∷ m) = if j == k then some v else get k m

  -- `m[k] = v`
  unfoldable pub put : String → V → Map V → Map V
  put k v [] = (k, v) ∷ []
  put k v ((j, w) ∷ m) = if j == k then (k, v) ∷ m else (j, w) ∷ put k v m

  -- `delete(m, k)`
  unfoldable pub delete : String → Map V → Map V
  delete k [] = []
  delete k ((j, w) ∷ m) = if j == k then delete k m else (j, w) ∷ delete k m

  -- `m[k]`, with the zero value `z` of the type on a missing key
  unfoldable pub get_or : V → String → Map V → V
  unfolding get
  get_or z k m = elim (get k m) [ none ↦ z | some v ↦ v ]

  pub get-put :
      (k j : String) (v : V) (m : Map V) → get j (put k v m) ≡ (if k == j then some v else get j m)
  unfolding get put
  get-put k j v [] = refl
  get-put k j v ((i, w) ∷ m) = ground (arith, eq_iff k j, eq_iff i k, eq_iff i j, get-put k j v m)

  pub get-delete :
      (k j : String) (m : Map V) → get j (delete k m) ≡ (if k == j then none else get j m)
  unfolding get delete
  get-delete k j [] = ground arith
  get-delete k j ((i, w) ∷ m) = ground (arith, eq_iff k j, eq_iff i k, eq_iff i j, get-delete k j m)

  pub get-put_self : (k : String) (v : V) (m : Map V) → get k (put k v m) ≡ some v
  get-put_self k v m = simp (get-put, eq_refl)

  pub get-put_ne :
      (k j : String) (v : V) (m : Map V) → (k == j) ≡ false → get j (put k v m) ≡ get j m
  get-put_ne k j v m h = rw (get-put k j v m) (rw h)

  pub get_or-get : (z : V) (k : String) (m : Map V) {v : V} → get k m ≡ some v → get_or z k m ≡ v
  unfolding get_or
  get_or-get z k m h = rw (get_or, h) refl

  pub get_or-put :
      (z : V) (k j : String) (v : V) (m : Map V)
      → get_or z j (put k v m) ≡ (if k == j then v else get_or z j m)
  unfolding get_or
  get_or-put z k j v m = ground (arith, get-put k j v m)

  pub get_or-put_self : (z : V) (k : String) (v : V) (m : Map V) → get_or z k (put k v m) ≡ v
  get_or-put_self z k v m = get_or-get z k (put k v m) (get-put_self k v m)

  -- To put what is there already changes nothing.
  pub put-get : (k : String) (m : Map V) {v : V} → get k m ≡ some v → put k v m ≡ m
  unfolding get put
  put-get k [] h = absurd cc
  put-get k ((j, w) ∷ m) {v} h = elim (Bool-cases (j == k)) [
    | inl same ↦
        let e = (eq_iff j k).0 same in
        let held : some w ≡ some v = rw (same) at h in
        let value : w ≡ v = cc in rw (same) rw (e) rw (value) refl
    | inr other ↦ let rest = put-get k m (rw (other) at h) in rw (other) (rw (rest) refl)
  ]
