-- ===== src/Prelude/Sort.antt =====
-- `Array.prototype.sort` with no comparator: the strings in the order of their code units.
use mathlib.Core.Path.{◌≡◌, refl}
use mathlib.Core.Bool.{Bool, true, false, ◌||◌, ◌&&◌}
use mathlib.Core.List.{List, [], ◌∷◌}
use native.Mathlib.Omega.{arith}
use bastiondeck.Prelude.Tests.{ltb, eqb, if◌then◌else◌}
use bastiondeck.Prelude.Texts.{Text, ◌==◌, ==_sym}
use bastiondeck.Prelude.Sets.{contains, HasNoRepeat}

-- `s < t`
unfoldable pub lt_text : Text → Text → Bool
lt_text s [] = false
lt_text [] (b ∷ t) = true
lt_text (a ∷ s) (b ∷ t) = ltb a b || (eqb a b && lt_text s t)

unfoldable pub insert : Text → List Text → List Text
insert a [] = a ∷ []
insert a (x ∷ xs) = let rest = insert a xs in if lt_text x a then x ∷ rest else a ∷ x ∷ xs

unfoldable pub sort : List Text → List Text
unfolding insert
sort [] = []
sort (x ∷ xs) = insert x (sort xs)

pub contains-insert :
    (a b : Text) (xs : List Text) → contains a (insert b xs) ≡ (a == b || contains a xs)
unfolding insert contains
contains-insert a b [] = refl
contains-insert a b (x ∷ xs) = ground (arith, contains-insert a b xs)

pub contains-sort : (a : Text) (xs : List Text) → contains a (sort xs) ≡ contains a xs
unfolding sort contains
contains-sort a [] = refl
contains-sort a (x ∷ xs) = ground (arith, contains-insert a x (sort xs), contains-sort a xs)

insert-HasNoRepeat :
    (a : Text) (xs : List Text) → contains a xs ≡ false → HasNoRepeat xs → HasNoRepeat (insert a xs)
unfolding insert contains
insert-HasNoRepeat a [] h k = (refl, tt)
insert-HasNoRepeat a (x ∷ xs) h k =
    ground (arith, insert-HasNoRepeat a xs, contains-insert x a xs, ==_sym a x)

pub sort-HasNoRepeat : (xs : List Text) → HasNoRepeat xs → HasNoRepeat (sort xs)
unfolding sort
sort-HasNoRepeat [] h = tt
sort-HasNoRepeat (x ∷ xs) (h, k) =
    insert-HasNoRepeat x (sort xs) (ground (arith, contains-sort x xs)) (sort-HasNoRepeat xs k)

-- No string is less than the one before it.
abbrev pub IsSorted : List Text → Type 0
IsSorted [] = Unit
IsSorted (x ∷ []) = Unit
IsSorted (x ∷ y ∷ xs) = (lt_text y x ≡ false) × IsSorted (y ∷ xs)

lt_text_asymm : (s t : Text) → lt_text s t ≡ true → lt_text t s ≡ false
unfolding lt_text
lt_text_asymm s [] h = ground arith
lt_text_asymm [] (b ∷ t) h = refl
lt_text_asymm (a ∷ s) (b ∷ t) h = ground (arith, lt_text_asymm s t)

insert-IsSorted : (a : Text) (xs : List Text) → IsSorted xs → IsSorted (insert a xs)
unfolding insert
insert-IsSorted a [] h = tt
insert-IsSorted a (x ∷ []) h = ground (arith, lt_text_asymm x a)
insert-IsSorted a (x ∷ y ∷ xs) h = ground (arith, lt_text_asymm x a, insert-IsSorted a (y ∷ xs))

pub sort-IsSorted : (xs : List Text) → IsSorted (sort xs)
unfolding sort
sort-IsSorted [] = tt
sort-IsSorted (x ∷ xs) = insert-IsSorted x (sort xs) (sort-IsSorted xs)
