-- ===== src/Auth.antt =====
-- web/src/store/auth.tsx: the session of the page. The answers of the server are arguments; between
-- two answers that one operation awaits, no other operation runs.
pub mod Guard
pub mod Session
pub mod Access
use bastiondeck.Prelude.{
  ℕ, Bool, true, false, Option, none, some, List, [], ◌∷◌, Text, js, ◌==◌, contains, leb,
  if◌then◌else◌,
}
use bastiondeck.Api.Inventory.{Role, owner, admin, operator, viewer, User}
use bastiondeck.Hooks.{Outcome, ok, fail}

-- The state of `AuthProvider`, and `tokenStore` of web/src/api/client.ts.
pub record Auth : Type 0 where
  pub user : Option User
  pub permissions : List Text
  pub setup_required : Option Bool
  pub loading : Bool
  pub token : Option Text

abbrev pub signed_out : Auth
signed_out = record {
  user = none;
  permissions = [];
  setup_required = none;
  loading = true;
  token = none;
}

pub record Me : Type 0 where
  pub user : User
  pub permissions : List Text

abbrev with_me : Auth → Outcome Me → Auth
with_me s (ok me) = record s { user = some me.user; permissions = me.permissions }
with_me s (fail m) = record s { user = none; permissions = [] }

-- What the server answers to the calls of one operation.
pub record Answers : Type 0 where
  pub status : Outcome Bool
  pub me : Outcome Me

-- An operation leaves a state, and its promise resolves or is rejected with a message.
abbrev pub Done : Type 0
Done = Auth × Outcome (Unit {0})

abbrev after_status : Answers → Auth → Outcome Bool → Done
after_status a s (fail m) = (s, fail m)
after_status a s (ok true) = (record s { setup_required = some true; user = none }, ok tt)
after_status a s (ok false) = (with_me (record s { setup_required = some false }) a.me, ok tt)

unfoldable pub refresh : Answers → Auth → Done
refresh a s = after_status a s a.status

-- `refresh().finally(() => setLoading(false))` on mount
unfoldable pub mount : Answers → Auth → Auth
unfolding refresh
mount a s = record (refresh a s).0 { loading = false }

unfoldable pub login : Outcome Text → Answers → Auth → Done
unfolding refresh
login (fail m) a s = (s, fail m)
login (ok t) a s = refresh a (record s { token = some t })

unfoldable pub setup : Outcome (Unit {0}) → Outcome Text → Answers → Auth → Done
unfolding login
setup (fail m) l a s = (s, fail m)
setup (ok _) l a s = login l a s

-- `AuthApi.logout().catch(() => undefined)`: its outcome is not looked at.
unfoldable pub logout : Outcome (Unit {0}) → Answers → Auth → Done
unfolding refresh
logout o a s = refresh a (record s { token = none; user = none; permissions = [] })

unfoldable pub can : Auth → Text → Bool
can s perm = contains perm s.permissions

abbrev role_order : Role → ℕ
role_order viewer = 0
role_order operator = 1
role_order admin = 2
role_order owner = 3

-- `ROLE_ORDER[r]` for any string; a comparison with what is no number is false.
abbrev order_of : Text → Option ℕ
order_of r =
    if r == js "viewer"
    then some 0
    else if r == js "operator"
    then some 1
    else if r == js "admin"
    then some 2
    else if r == js "owner"
    then some 3
    else none

unfoldable role_at_least : Auth → Text → Bool
role_at_least s r = elim s.user [
  | none ↦ false
  | some u ↦ elim (order_of r) [ none ↦ false | some n ↦ leb n (role_order u.role) ]
]
