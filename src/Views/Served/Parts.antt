-- ===== src/Views/Served/Parts.antt =====
-- What is served, and how the parts of a view add up to the view.
use mathlib.Core.List.{append_assoc}
use bastiondeck.Prelude.{
  Bool, true, false, Option, none, some, List, [], ◌∷◌, ◌++◌, Text, All, All-append, ◌≡◌, refl, sym,
  ◌∙◌, if◌then◌else◌,
}
use bastiondeck.Auth.{Auth, can}
use bastiondeck.Endpoints.Operations.{Operation}
use bastiondeck.Server.Routes.{
  Permission, permission_name, may, permissions_for, route_of, lets_through,
}
use bastiondeck.Server.Routes.Served.{contains-permissions_for}
use bastiondeck.Views.{Node, asks, asked, each, only_if, error_box}

-- The route of the operation lets this role through.
abbrev pub Serves : Text → Operation → Type 0
Serves role o = lets_through (route_of o).guard role ≡ true

-- Every call that a control among the nodes makes is served.
pub data IsServed (role : Text) : List Node → Type 0 where
  nil : IsServed role []
  cons :
      {n : Node} {ns : List Node}
      → All (Serves role) (asks n)
      → IsServed role ns
      → IsServed role (n ∷ ns)

pub IsServed-append :
    {role : Text} {ms ns : List Node}
    → IsServed role ms
    → IsServed role ns
    → IsServed role (ms ++ ns)
IsServed-append nil k = k
IsServed-append (cons a h) k = cons a (IsServed-append h k)

pub IsServed-each {ℓ} :
    {role : Text} {A : Type ℓ} {f : A → List Node} (xs : List A)
    → ((a : A) → IsServed role (f a))
    → IsServed role (each f xs)
unfolding each
IsServed-each [] h = nil
IsServed-each (x ∷ xs) h = IsServed-append (h x) (IsServed-each xs h)

pub IsServed-only_if :
    {role : Text} {ns : List Node} (b : Bool)
    → (b ≡ true → IsServed role ns)
    → IsServed role (only_if b ns)
unfolding only_if
IsServed-only_if true h = h refl
IsServed-only_if false h = nil

-- A view that is one of two
pub IsServed-if :
    {role : Text} {ms ns : List Node} (b : Bool)
    → (b ≡ true → IsServed role ms)
    → (b ≡ false → IsServed role ns)
    → IsServed role (if b then ms else ns)
IsServed-if true h k = h refl
IsServed-if false h k = k refl

pub IsServed-error_box : {role : Text} (m : Option Text) → IsServed role (error_box m)
IsServed-error_box none = nil
IsServed-error_box (some []) = nil
IsServed-error_box (some (c ∷ s)) = cons tt nil

pub asked-append : (ms ns : List Node) → asked (ms ++ ns) ≡ asked ms ++ asked ns
unfolding asked
asked-append [] ns = refl
asked-append (m ∷ ms) ns =
    rw (asked-append ms ns) (sym (append_assoc (asks m) (asked ms) (asked ns)))

pub asked-served : {role : Text} {ns : List Node} → IsServed role ns → All (Serves role) (asked ns)
unfolding asked
asked-served nil = tt
asked-served (cons {n} {ns} a h) = All-append (Serves _) (asks n) (asked ns) a (asked-served h)

-- What the server tells a role that it may, it lets it do.
pub told_may :
    (role : Text) (s : Auth) (p : Permission)
    → s.permissions ≡ permissions_for role
    → can s (permission_name p) ≡ true
    → may role p ≡ true
unfolding can
told_may role s p e h = sym (contains-permissions_for role p) ∙ (rw e at h)

pub ruleset parts = (nil, cons, IsServed-append, IsServed-only_if, IsServed-error_box)
