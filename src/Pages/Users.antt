-- ===== src/Pages/Users.antt =====
-- web/src/pages/Users.tsx: which roles a user may grant, and the form for a new user.
pub mod Grants
use bastiondeck.Prelude.{
  ℕ, ◌<◌, Bool, true, false, ◌||◌, not, Option, none, some, List, [], ◌∷◌, Text, js, ◌==◌, length,
  ltb, filter, if◌then◌else◌,
}
use bastiondeck.Prelude.Json.{str}
use bastiondeck.Api.Inventory.{Role, owner, admin, operator, viewer}
use bastiondeck.Hooks.{Outcome, ok, fail}
use bastiondeck.Toast.{ToastKind, success, error}
use bastiondeck.Endpoints.Calls.{Call, json}
use bastiondeck.Endpoints.Session.{UsersOp, users_call}
use bastiondeck.Pages.{Effect, calls, says, reloads}

abbrev roles : List Text
roles = js "viewer" ∷ js "operator" ∷ js "admin" ∷ js "owner" ∷ []

-- `RANK[me.role] ?? 0`
abbrev rank_of : Role → ℕ
rank_of viewer = 0
rank_of operator = 1
rank_of admin = 2
rank_of owner = 3

-- `RANK[targetRole] ?? 99`; a member of the prototype is no number, and below no rank either.
abbrev target_rank : Text → ℕ
target_rank t =
    if t == js "viewer"
    then 0
    else if t == js "operator"
    then 1
    else if t == js "admin"
    then 2
    else if t == js "owner"
    then 3
    else 99

abbrev below_admin : Role → Text → Bool
below_admin r t =
    if t == js "owner" || t == js "admin" then false else ltb (target_rank t) (rank_of r)

-- `me` is the role of the user who is signed in.
unfoldable pub can_assign : Option Role → Text → Bool
unfolding ◌==◌
can_assign none t = false
can_assign (some owner) t = true
can_assign (some admin) t = below_admin admin t
can_assign (some operator) t = below_admin operator t
can_assign (some viewer) t = below_admin viewer t

-- `ROLES.filter(canAssign)`
unfoldable pub assignable : Option Role → List Text
unfolding can_assign
assignable me = filter (can_assign me) roles

pub record UserForm : Type 0 where
  pub username : Text
  pub display_name : Text
  pub role : Text
  pub password : Text

abbrev pub user_form_op : UserForm → UsersOp
user_form_op f =
    (UsersOp.create (
      json (
        (js "username", some (str f.username))
        ∷ (js "displayName", some (str f.display_name))
        ∷ (js "role", some (str f.role))
        ∷ (js "password", some (str f.password))
        ∷ [])))

abbrev pub create_call : UserForm → Call
create_call f = users_call (user_form_op f)

abbrev submitted : UserForm → Outcome (Unit {0}) → Option UserForm × List Effect
submitted f (ok _) = (none, calls (create_call f) ∷ says success (js "用户已创建") ∷ reloads ∷ [])
submitted f (fail m) = (some f, calls (create_call f) ∷ says error m ∷ [])

unfoldable pub create_user :
    Option Role → Outcome (Unit {0}) → Option UserForm → Option UserForm × List Effect
unfolding can_assign
create_user me o none = (none, [])
create_user me o (some f) =
    if not (can_assign me f.role)
    then (some f, says error (js "当前角色无权授予该角色") ∷ [])
    else if ltb (length f.password) 10
    then (some f, says error (js "初始密码至少 10 位") ∷ [])
    else submitted f o
