-- ===== src/Prelude/Maps.antt =====
-- `Map` with strings as keys, as the list of its entries in the order of their insertion.
use mathlib.Core.Path.{◌≡◌, refl}
use mathlib.Core.Option.{Option, none, some}
use mathlib.Core.List.{List, [], ◌∷◌}
use native.Mathlib.Omega.{arith}
use bastiondeck.Prelude.Tests.{if◌then◌else◌}
use bastiondeck.Prelude.Texts.{Text, ◌==◌, ==_iff}

module _ {ℓ} {V : Type ℓ} where
  -- `m.get(k)`
  unfoldable pub get : Text → List (Text × V) → Option V
  get k [] = none
  get k ((j, v) ∷ m) = if j == k then some v else get k m

  -- `m.set(k, v)`
  unfoldable pub set : Text → V → List (Text × V) → List (Text × V)
  set k v [] = (k, v) ∷ []
  set k v ((j, w) ∷ m) = if j == k then (k, v) ∷ m else (j, w) ∷ set k v m

  -- `vs.forEach((v) => m.set(key(v), v))`
  unfoldable pub set_all : (V → Text) → List (Text × V) → List V → List (Text × V)
  unfolding set
  set_all key m [] = m
  set_all key m (v ∷ vs) = set_all key (set (key v) v m) vs

  pub get-set :
      (k j : Text) (v : V) (m : List (Text × V))
      → get j (set k v m) ≡ (if k == j then some v else get j m)
  unfolding get set
  get-set k j v [] = refl
  get-set k j v ((i, w) ∷ m) = ground (arith, ==_iff k j, ==_iff i k, ==_iff i j, get-set k j v m)

  -- The last with the key, or what is found otherwise
  abbrev pub last_or : (V → Text) → Text → Option V → List V → Option V
  last_or key k found [] = found
  last_or key k found (v ∷ vs) = last_or key k (if key v == k then some v else found) vs

  pub get-set_all :
      (key : V → Text) (k : Text) (m : List (Text × V)) (vs : List V)
      → get k (set_all key m vs) ≡ last_or key k (get k m) vs
  unfolding set_all
  get-set_all key k m [] = refl
  get-set_all key k m (v ∷ vs) =
      rw (get-set_all key k (set (key v) v m) vs, get-set (key v) k v m) refl
