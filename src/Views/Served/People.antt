-- ===== src/Views/Served/People.antt =====
-- The page of the users, for who may see it.
use bastiondeck.Prelude.{
  Bool, true, false, Option, none, some, List, [], ◌∷◌, Text, All, map, ◌≡◌, Bool-cases, inl, inr,
}
use bastiondeck.Auth.{Auth}
use bastiondeck.Api.Inventory.{User, SessionView}
use bastiondeck.Hooks.Async.{View}
use bastiondeck.Pages.Users.{UserForm, assignable}
use bastiondeck.Pages.Account.{PasswordForm, Totp, role_op, role_of, editable}
use bastiondeck.Endpoints.Operations.{users_op}
use bastiondeck.Server.Routes
use bastiondeck.Server.Routes.{may, route_of}
use bastiondeck.Views.{Dates, asks}
use bastiondeck.Views.Users.{
  UsersPage, role_cell, user_table, session_table, user_dialog, password_dialog, totp_dialog,
  new_user_button, users_view,
}
use bastiondeck.Views.Served.Parts.{Serves, IsServed, nil, IsServed-each, IsServed-if, parts}

module _ (role : Text) (reads : may role Routes.read ≡ true)
    (manages : may role Routes.manage_users ≡ true) where
  role_ops-served :
      (u : User) (rs : List Text) → All (Serves role) (map (λ r. users_op (role_op u r)) rs)
  unfolding route_of
  role_ops-served u [] = tt
  role_ops-served u (r ∷ rs) = (manages, role_ops-served u rs)

  role_cell-served : (me : Option User) (u : User) → All (Serves role) (asks (role_cell me u))
  role_cell-served me u = elim (Bool-cases (editable me u)) [
    | inl e ↦ rw e (role_ops-served u (assignable (role_of me)))
    | inr e ↦ rw e tt
  ]

  user_table-IsServed :
      (dates : Dates) (me : Option User) (v : View (List User))
      → IsServed role (user_table dates me v)
  unfolding user_table route_of
  user_table-IsServed dates me v =
      search (parts, tt, IsServed-if, IsServed-each, role_cell-served) depth 30

  session_table-IsServed :
      (dates : Dates) (v : View (List SessionView)) → IsServed role (session_table dates v)
  unfolding session_table route_of
  session_table-IsServed dates v = search (parts, tt, IsServed-each) depth 30

  user_dialog-IsServed : (me : Option User) (o : Option UserForm) → IsServed role (user_dialog me o)
  unfolding route_of
  user_dialog-IsServed me none = nil
  user_dialog-IsServed me (some f) = search (parts, tt) depth 30

  password_dialog-IsServed : (o : Option PasswordForm) → IsServed role (password_dialog o)
  unfolding route_of
  password_dialog-IsServed none = nil
  password_dialog-IsServed (some f) = search (parts, tt) depth 30

  totp_dialog-IsServed : (o : Option Totp) → IsServed role (totp_dialog o)
  unfolding route_of
  totp_dialog-IsServed none = nil
  totp_dialog-IsServed (some t) = search (parts, tt) depth 30

  new_user_button-served : (b : Bool) → All (Serves role) (asks (new_user_button b))
  new_user_button-served true = tt
  new_user_button-served false = tt

  -- All that the controls of the page of the users ask for is served.
  pub users_view-IsServed :
      (dates : Dates) (s : Auth) (p : UsersPage) → IsServed role (users_view dates s p)
  unfolding users_view
  users_view-IsServed dates s p =
      search
        (
          parts, tt, new_user_button-served, user_table-IsServed, session_table-IsServed,
          user_dialog-IsServed, password_dialog-IsServed, totp_dialog-IsServed,
        )
        depth 20
