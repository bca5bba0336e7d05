-- ===== src/Pages/Account.antt =====
-- web/src/pages/Users.tsx: changing and removing users, and the user's own password, TOTP and
-- sessions.
pub mod Editable
use bastiondeck.Prelude.{
  ℕ, Bool, true, false, ◌&&◌, not, Option, none, some, List, [], ◌∷◌, Text, js, ◌==◌, length, ltb,
  if◌then◌else◌,
}
use bastiondeck.Prelude.Json.{str}
use bastiondeck.Api.Inventory.{Role, User, SessionView}
use bastiondeck.Hooks.{Outcome}
use bastiondeck.Toast.{info, success, error}
use bastiondeck.Endpoints.Calls.{Call, json}
use bastiondeck.Endpoints.Session.{AuthOp, auth_call, UsersOp, users_call}
use bastiondeck.Pages.{Effect, says, reloads, attempt, attempt_only, confirmed}
use bastiondeck.Pages.Users.{can_assign}
use bastiondeck.Pages.Users.Grants.{role_name}

abbrev pub role_of : Option User → Option Role
role_of none = none
role_of (some me) = some me.role

-- `u.id !== me?.id`
abbrev is_other : Option User → User → Bool
is_other none u = true
is_other (some me) u = not (u.id == me.id)

-- `u.id !== me?.id && canAssign(u.role)`
unfoldable pub editable : Option User → User → Bool
unfolding ◌==◌
editable me u = is_other me u && can_assign (role_of me) (role_name u.role)

abbrev pub role_op : User → Text → UsersOp
role_op u role = (UsersOp.update u.id (json ((js "role", some (str role)) ∷ [])))

abbrev pub role_request : User → Text → Call
role_request u role = users_call (role_op u role)

-- The `onChange` of the choice of a role, which is there for a user who is editable.
unfoldable pub change_role : Option User → User → Text → Outcome (Unit {0}) → List Effect
unfolding editable
change_role me u role o =
    if editable me u then attempt_only (role_request u role) o (λ _. reloads ∷ []) else []

-- The confirmed removal of a user who is editable
unfoldable remove_user : Option User → User → Outcome (Unit {0}) → List Effect
unfolding editable
remove_user me u o =
    if editable me u then confirmed (users_call (UsersOp.remove u.id)) o (λ _. reloads ∷ []) else []

pub record PasswordForm : Type 0 where
  pub old_password : Text
  pub new_password : Text

abbrev pub password_op : PasswordForm → AuthOp
password_op f = (AuthOp.change_password f.old_password f.new_password)

abbrev pub password_request : PasswordForm → Call
password_request f = auth_call (password_op f)

unfoldable pub change_password :
    Outcome (Unit {0}) → Option PasswordForm → Option PasswordForm × List Effect
change_password o none = (none, [])
change_password o (some f) =
    if ltb (length f.new_password) 10
    then (some f, says error (js "新密码至少 10 位") ∷ [])
    else attempt (password_request f) (some f) o (λ _. (none, says success (js "密码已更新") ∷ []))

pub record Totp : Type 0 where
  pub secret : Text
  pub uri : Text
  pub code : Text

-- `startTotp`; the answer is the secret and the address.
unfoldable start_totp : Outcome (Text × Text) → Option Totp → Option Totp × List Effect
start_totp o t =
    attempt (auth_call AuthOp.totp_setup) t o
      (λ (r : Text × Text). (some (record { secret = r.0; uri = r.1; code = [] }), []))

unfoldable enable_totp : Outcome (Unit {0}) → Option Totp → Option Totp × List Effect
enable_totp o none = (none, [])
enable_totp o (some t) =
    attempt (auth_call (AuthOp.totp_enable t.code)) (some t) o
      (λ _. (none, says success (js "TOTP 已启用") ∷ reloads ∷ []))

-- `s.current`
abbrev pub is_current : Option Bool → Bool
is_current none = false
is_current (some b) = b

-- The button that revokes a session is there for all but the current one.
unfoldable pub revoke : SessionView → Outcome (Unit {0}) → List Effect
revoke s o =
    if is_current s.current
    then []
    else attempt_only (users_call (UsersOp.revoke s.id)) o (λ _. reloads ∷ [])

unfoldable pub revoke_all : Outcome (Unit {0}) → List Effect
revoke_all o =
    confirmed (users_call UsersOp.revoke_all) o (λ _. reloads ∷ says info (js "已吊销") ∷ [])
