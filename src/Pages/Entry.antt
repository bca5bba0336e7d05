-- ===== src/Pages/Entry.antt =====
-- web/src/pages/Login.tsx and web/src/pages/Setup.tsx: how a session begins. Whether an error is an
-- `ApiError` is an argument, as it decides what is said.
pub mod Way
use bastiondeck.Prelude.{
  ℕ, Bool, true, false, not, Option, none, some, List, [], ◌∷◌, Text, js, ◌==◌, eqb, ltb, length,
  if◌then◌else◌,
}
use bastiondeck.Hooks.{Outcome, ok, fail}
use bastiondeck.Toast.{success, error}
use bastiondeck.Endpoints.Session.{AuthOp, auth_call}
use bastiondeck.Auth.{Auth, Answers, login, setup}
use bastiondeck.Pages.{Effect, calls, says, goes}

pub record LoginForm : Type 0 where
  pub username : Text
  pub password : Text
  pub totp : Text

-- `totp || undefined`
abbrev totp_of : Text → Option Text
totp_of [] = none
totp_of (c ∷ s) = some (c ∷ s)

-- `from && from.startsWith('/') ? from : '/'`
unfoldable pub destination : Option Text → Text
destination none = js "/"
destination (some []) = js "/"
destination (some (c ∷ s)) = if eqb c b'/' then c ∷ s else js "/"

abbrev arrival : Option Text → Bool → Outcome (Unit {0}) → List Effect
arrival from is_api (ok _) = goes (destination from) ∷ []
arrival from is_api (fail m) = says error (if is_api then m else js "登录失败") ∷ []

abbrev login_request : LoginForm → Effect
login_request f = calls (auth_call (AuthOp.login f.username f.password (totp_of f.totp)))

-- `submit` of the login page: `o` is the answer to the login, `a` are those to the refresh after it.
unfoldable pub submit_login :
    Option Text → Bool → Outcome Text → Answers → LoginForm → Auth → Auth × List Effect
unfolding destination
submit_login from is_api o a f s =
    let done = login o a s in (done.0, login_request f ∷ arrival from is_api done.1)

pub record SetupForm : Type 0 where
  pub username : Text
  pub display_name : Text
  pub password : Text
  pub confirm : Text

abbrev initialised : Outcome (Unit {0}) → List Effect
initialised (ok _) = says success (js "初始化完成，已自动登录") ∷ goes (js "/") ∷ []
initialised (fail m) = says error m ∷ []

-- The calls of `setup`: the login follows only if the setup is taken.
abbrev pub setup_requests : Outcome (Unit {0}) → SetupForm → List Effect → List Effect
setup_requests (fail m) f es =
    calls (auth_call (AuthOp.setup f.username f.password (some f.display_name))) ∷ es
setup_requests (ok _) f es =
    calls (auth_call (AuthOp.setup f.username f.password (some f.display_name)))
    ∷ calls (auth_call (AuthOp.login f.username f.password none))
    ∷ es

-- `submit` of the setup page
unfoldable pub submit_setup :
    Outcome (Unit {0}) → Outcome Text → Answers → SetupForm → Auth → Auth × List Effect
unfolding ◌==◌
submit_setup o l a f s =
    if ltb (length f.password) 10
    then (s, says error (js "密码至少 10 位") ∷ [])
    else if not (f.password == f.confirm)
    then (s, says error (js "两次输入的密码不一致") ∷ [])
    else let done = setup o l a s in (done.0, setup_requests o f (initialised done.1))
