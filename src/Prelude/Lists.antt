-- ===== src/Prelude/Lists.antt =====
-- Arrays as lists, measured by native numbers: `length`, `slice`, `filter` and predicates.
use Prim.Native.Nat.{ℕ, zero, suc, ◌+◌, min}
use mathlib.Core.Path.{◌≡◌, refl, ap}
use mathlib.Core.Bool.{Bool, true, false, ◌&&◌, ◌||◌}
use mathlib.Core.List.{List, [], ◌∷◌, ◌++◌}
use mathlib.Core.Option.{Option, none, some}
use native.Mathlib.Omega.{arith}
use bastiondeck.Prelude.Tests.{if◌then◌else◌}

module _ {ℓ} {A : Type ℓ} where
  abbrev pub length : List A → ℕ
  length [] = 0
  length (x ∷ xs) = suc (length xs)

  abbrev pub take : ℕ → List A → List A
  take zero xs = []
  take (suc n) [] = []
  take (suc n) (x ∷ xs) = x ∷ take n xs

  abbrev pub drop : ℕ → List A → List A
  drop zero xs = xs
  drop (suc n) [] = []
  drop (suc n) (x ∷ xs) = drop n xs

  -- `xs.filter(p)`
  abbrev pub filter : (A → Bool) → List A → List A
  filter p [] = []
  filter p (x ∷ xs) = if p x then x ∷ filter p xs else filter p xs

  -- `xs.some(p)`
  abbrev pub any : (A → Bool) → List A → Bool
  any p [] = false
  any p (x ∷ xs) = p x || any p xs

  -- `xs.every(p)`
  abbrev pub all : (A → Bool) → List A → Bool
  all p [] = true
  all p (x ∷ xs) = p x && all p xs

  -- `xs.find(p)`
  abbrev pub find : (A → Bool) → List A → Option A
  find p [] = none
  find p (x ∷ xs) = if p x then some x else find p xs

  pub length-append : (xs ys : List A) → length (xs ++ ys) ≡ length xs + length ys
  length-append [] ys = omega arith
  length-append (x ∷ xs) ys = omega (arith, length-append xs ys)

  pub length-take : (n : ℕ) (xs : List A) → length (take n xs) ≡ min n (length xs)
  length-take zero xs = omega arith
  length-take (suc n) [] = omega arith
  length-take (suc n) (x ∷ xs) = omega (arith, length-take n xs)

  pub take-append-drop : (n : ℕ) (xs : List A) → take n xs ++ drop n xs ≡ xs
  take-append-drop zero xs = refl
  take-append-drop (suc n) [] = refl
  take-append-drop (suc n) (x ∷ xs) = ap (λ r. x ∷ r) (take-append-drop n xs)

module _ {ℓ κ} {A : Type ℓ} (P : A → Type κ) where
  abbrev pub All : List A → Type κ
  All [] = Unit
  All (x ∷ xs) = P x × All xs

  pub All-append : (xs ys : List A) → All xs → All ys → All (xs ++ ys)
  All-append [] ys _ k = k
  All-append (x ∷ xs) ys (p, h) k = (p, All-append xs ys h k)

pub filter_cong {ℓ} :
    {A : Type ℓ} (f g : A → Bool) (xs : List A)
    → All (λ a. f a ≡ g a) xs
    → filter f xs ≡ filter g xs
filter_cong f g [] h = refl
filter_cong f g (x ∷ xs) (h, hs) = ground (arith, h, filter_cong f g xs hs)

-- `xs` with some elements left out, in the same order.
pub data IsSublist {ℓ} {A : Type ℓ} : List A → List A → Type ℓ where
  done : IsSublist [] []
  keep : (x : A) {xs ys : List A} → IsSublist xs ys → IsSublist (x ∷ xs) (x ∷ ys)
  skip : (x : A) {xs ys : List A} → IsSublist xs ys → IsSublist xs (x ∷ ys)

filter-IsSublist_cons {ℓ} :
    {A : Type ℓ} (b : Bool) (x : A) {ys xs : List A}
    → IsSublist ys xs
    → IsSublist (if b then x ∷ ys else ys) (x ∷ xs)
filter-IsSublist_cons true x h = keep x h
filter-IsSublist_cons false x h = skip x h

pub filter-IsSublist {ℓ} : {A : Type ℓ} (p : A → Bool) (xs : List A) → IsSublist (filter p xs) xs
filter-IsSublist p [] = done
filter-IsSublist p (x ∷ xs) = filter-IsSublist_cons (p x) x (filter-IsSublist p xs)

pub IsSublist-refl {ℓ} : {A : Type ℓ} (xs : List A) → IsSublist xs xs
IsSublist-refl [] = done
IsSublist-refl (x ∷ xs) = keep x (IsSublist-refl xs)
