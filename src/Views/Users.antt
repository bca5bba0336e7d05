-- ===== src/Views/Users.antt =====
-- web/src/pages/Users.tsx: what the page of the users reads and shows.
use bastiondeck.Prelude.{
  Bool, true, false, not, Option, none, some, List, [], ◌∷◌, ◌++◌, Text, js, ◌==◌, map,
  if◌then◌else◌,
}
use bastiondeck.Api.Inventory.{Role, owner, admin, operator, viewer, User, SessionView}
use bastiondeck.Hooks.Async.{View}
use bastiondeck.Auth.{Auth, can}
use bastiondeck.Endpoints.Operations.{Operation, auth_op, users_op}
use bastiondeck.Endpoints.Session.{AuthOp, UsersOp}
use bastiondeck.Pages.Users.{UserForm, user_form_op, assignable}
use bastiondeck.Pages.Users.Grants.{role_name}
use bastiondeck.Pages.Account.{
  PasswordForm, password_op, Totp, role_op, role_of, is_current, editable,
}
use bastiondeck.Views.{
  Node, text, button, input, choice, row, dialog, only_if, each, Dates, time_of, loading, error_box,
  page_title, or_nil,
}

pub record UsersPage : Type 0 where
  pub users : View (List User)
  pub sessions : View (List SessionView)
  pub form : Option UserForm
  pub pw : Option PasswordForm
  pub totp : Option Totp

abbrev pub users_loads : List Operation
users_loads = users_op UsersOp.list ∷ users_op UsersOp.my_sessions ∷ []

abbrev default_role : Option Role → Text
default_role none = js "operator"
default_role (some owner) = js "admin"
default_role (some admin) = js "operator"
default_role (some operator) = js "operator"
default_role (some viewer) = js "operator"

-- The form that the button of a new user opens
unfoldable new_user : Option User → UserForm
new_user me = record {
  username = [];
  display_name = [];
  role = default_role (role_of me);
  password = [];
}

abbrev as_options : List Text → List (Text × Text)
as_options rs = map (λ (r : Text). (r, r)) rs

-- `u.id === me?.id`
abbrev is_me : Option User → User → Bool
is_me none u = false
is_me (some me) u = u.id == me.id

-- Choosing a role calls for the change to the role that is chosen, one of those that are offered.
abbrev pub role_cell : Option User → User → Node
role_cell me u =
    if editable me u
    then choice [] (role_name u.role) (as_options (assignable (role_of me)))
        (map (λ r. users_op (role_op u r)) (assignable (role_of me)))
    else text (role_name u.role)

abbrev user_row : Dates → Option User → User → List Node
user_row dates me u =
    row u.id false ∷ text u.username ∷ only_if (is_me me u) (text (js "（我）") ∷ [])
    ++ text u.display_name
      ∷ role_cell me u
      ∷ text (if u.totp_enabled then js "已启用" else js "未启用")
      ∷ text (time_of dates u.last_login_at)
      ∷ only_if (editable me u) (button (js "删除") true (users_op (UsersOp.remove u.id) ∷ []) ∷ [])

unfoldable pub user_table : Dates → Option User → View (List User) → List Node
unfolding editable assignable
user_table dates me v = if v.loading then loading else each (user_row dates me) (or_nil v.value)

abbrev session_row : Dates → SessionView → List Node
session_row dates s =
    row s.id false
    ∷ text (time_of dates (some s.created_at))
    ∷ text (time_of dates (some s.expires_at))
    ∷ text (time_of dates (some s.last_seen_at))
    ∷ text s.ip
    ∷ text s.user_agent
    ∷ only_if (not (is_current s.current))
        (button (js "吊销") true (users_op (UsersOp.revoke s.id) ∷ []) ∷ [])

abbrev account_buttons : List Node
account_buttons =
    button (js "修改密码") true []
    ∷ button (js "绑定 TOTP") true (auth_op AuthOp.totp_setup ∷ [])
    ∷ button (js "吊销其他会话") true (users_op UsersOp.revoke_all ∷ [])
    ∷ []

unfoldable pub session_table : Dates → View (List SessionView) → List Node
session_table dates v =
    text (js "我的会话（滑动过期，服务端只存摘要）") ∷ account_buttons ++ each (session_row dates) (or_nil v.value)

abbrev pub user_dialog : Option User → Option UserForm → List Node
user_dialog me none = []
user_dialog me (some f) =
    dialog (js "新建用户")
    ∷ input (js "用户名") f.username
    ∷ input (js "显示名") f.display_name
    ∷ choice (js "角色") f.role (as_options (assignable (role_of me))) []
    ∷ input (js "初始密码（≥10 位，首次登录建议修改）") f.password
    ∷ button (js "取消") true []
    ∷ button (js "创建") true (users_op (user_form_op f) ∷ [])
    ∷ []

abbrev pub password_dialog : Option PasswordForm → List Node
password_dialog none = []
password_dialog (some f) =
    dialog (js "修改密码")
    ∷ input (js "当前密码") f.old_password
    ∷ input (js "新密码（≥10 位）") f.new_password
    ∷ button (js "取消") true []
    ∷ button (js "保存") true (auth_op (password_op f) ∷ [])
    ∷ []

abbrev pub totp_dialog : Option Totp → List Node
totp_dialog none = []
totp_dialog (some t) =
    dialog (js "绑定 TOTP（RFC 6238）")
    ∷ text (js "把以下密钥录入验证器（或扫描 otpauth 二维码）：")
    ∷ text (t.secret ++ js "\n" ++ t.uri)
    ∷ input (js "输入当前 6 位验证码") t.code
    ∷ button (js "确认绑定") true (auth_op (AuthOp.totp_enable t.code) ∷ [])
    ∷ []

abbrev pub new_user_button : Bool → Node
new_user_button true = button (js "+ 新建用户") true []
new_user_button false = text (js "当前角色无权管理用户")

unfoldable pub users_view : Dates → Auth → UsersPage → List Node
users_view dates s p =
    text (js "用户与会话") ∷ error_box p.users.error
    ++ page_title (js "用户（viewer < operator < admin < owner）")
        (new_user_button (can s (js "manage_users")) ∷ [])
    ++ user_table dates s.user p.users
    ++ session_table dates p.sessions
    ++ user_dialog s.user p.form
    ++ password_dialog p.pw
    ++ totp_dialog p.totp
