-- ===== src/Pages/Account/Editable.antt =====
-- Whom a user may change, against what the server lets be granted.
use bastiondeck.Prelude.{
  Bool, true, false, ◌&&◌, ◌||◌, not, some, [], ◌∷◌, Text, ◌==◌, ◌≡◌, refl, arith, if◌then◌else◌,
}
use bastiondeck.Api.Inventory.{Role, owner, admin, operator, viewer, User}
use bastiondeck.Hooks.{Outcome, ok, fail}
use bastiondeck.Server.Roles.{can_assign_role, is_valid_role, rank}
use bastiondeck.Pages.{calls_of}
use bastiondeck.Pages.Users.{can_assign}
use bastiondeck.Pages.Users.Grants.{role_name}
use bastiondeck.Pages.Account.{editable, role_request, change_role}

-- The one change that the client offers and the server refuses.
abbrev is_beyond : Role → Role → Bool
is_beyond operator viewer = true
is_beyond _ _ = false

can_assign-role_name :
    (r u : Role)
    → can_assign (some r) (role_name u)
      ≡ (can_assign_role (role_name r) (role_name u) || is_beyond r u)
unfolding can_assign can_assign_role is_valid_role rank ◌==◌
can_assign-role_name viewer viewer = refl
can_assign-role_name viewer operator = refl
can_assign-role_name viewer admin = refl
can_assign-role_name viewer owner = refl
can_assign-role_name operator viewer = refl
can_assign-role_name operator operator = refl
can_assign-role_name operator admin = refl
can_assign-role_name operator owner = refl
can_assign-role_name admin viewer = refl
can_assign-role_name admin operator = refl
can_assign-role_name admin admin = refl
can_assign-role_name admin owner = refl
can_assign-role_name owner viewer = refl
can_assign-role_name owner operator = refl
can_assign-role_name owner admin = refl
can_assign-role_name owner owner = refl

-- Whether the change of a user's role is sent: it is, exactly if the user is another one than who is
-- signed in, and one whose role the server lets that one grant, or a viewer changed by an operator.
calls_of-change_role :
    (me u : User) (role : Text) (o : Outcome (Unit {0}))
    → calls_of (change_role (some me) u role o) ≡ (
        if not (u.id == me.id)
          && (can_assign_role (role_name me.role) (role_name u.role) || is_beyond me.role u.role)
        then role_request u role ∷ []
        else [])
unfolding change_role editable
calls_of-change_role me u role (ok v) = rw (can_assign-role_name me.role u.role) (ground arith)
calls_of-change_role me u role (fail m) = rw (can_assign-role_name me.role u.role) (ground arith)
