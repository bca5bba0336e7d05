-- ===== src/Prelude/Sets.antt =====
-- `Set<string>` as the list of its members in the order of insertion, and `includes`.
use mathlib.Core.Path.{◌≡◌, refl}
use mathlib.Core.Bool.{Bool, false, ◌||◌}
use mathlib.Core.List.{List, [], ◌∷◌, ◌++◌}
use native.Mathlib.Omega.{arith}
use bastiondeck.Prelude.Tests.{if◌then◌else◌}
use bastiondeck.Prelude.Texts.{Text, ◌==◌, ==_iff, ==_sym}

-- `xs.includes(a)`, `s.has(a)`
unfoldable pub contains : Text → List Text → Bool
contains a [] = false
contains a (x ∷ xs) = a == x || contains a xs

-- `s.add(a)`
unfoldable pub add : Text → List Text → List Text
add a s = if contains a s then s else s ++ a ∷ []

-- `s.delete(a)`
unfoldable pub delete : Text → List Text → List Text
delete a [] = []
delete a (x ∷ xs) = let rest = delete a xs in if a == x then rest else x ∷ rest

-- The members are distinct.
abbrev pub HasNoRepeat : List Text → Type 0
HasNoRepeat [] = Unit
HasNoRepeat (x ∷ xs) = (contains x xs ≡ false) × HasNoRepeat xs

pub contains-append :
    (a : Text) (xs ys : List Text) → contains a (xs ++ ys) ≡ (contains a xs || contains a ys)
unfolding contains
contains-append a [] ys = refl
contains-append a (x ∷ xs) ys = ground (arith, contains-append a xs ys)

pub contains-add : (a b : Text) (s : List Text) → contains a (add b s) ≡ (a == b || contains a s)
unfolding add contains
contains-add a b s = ground (arith, contains-append a s (b ∷ []), ==_iff a b)

pub contains-delete :
    (a b : Text) (s : List Text)
    → contains a (delete b s) ≡ (if b == a then false else contains a s)
unfolding delete contains
contains-delete a b [] = ground arith
contains-delete a b (x ∷ xs) =
    ground (arith, contains-delete a b xs, ==_iff a x, ==_iff b x, ==_iff b a)

HasNoRepeat-append_one :
    (a : Text) (s : List Text) → HasNoRepeat s → contains a s ≡ false → HasNoRepeat (s ++ a ∷ [])
unfolding contains
HasNoRepeat-append_one a [] h k = (refl, tt)
HasNoRepeat-append_one a (x ∷ xs) h k =
    ground (arith, HasNoRepeat-append_one a xs h.1, contains-append x xs (a ∷ []), ==_sym a x)

pub add-HasNoRepeat : (a : Text) (s : List Text) → HasNoRepeat s → HasNoRepeat (add a s)
unfolding add
add-HasNoRepeat a s h = ground (arith, HasNoRepeat-append_one a s h)

pub delete-HasNoRepeat : (a : Text) (s : List Text) → HasNoRepeat s → HasNoRepeat (delete a s)
unfolding delete
delete-HasNoRepeat a [] h = tt
delete-HasNoRepeat a (x ∷ xs) h =
    ground (arith, delete-HasNoRepeat a xs h.1, contains-delete x a xs, ==_iff a x)
