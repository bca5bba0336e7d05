-- ===== src/Pages/Users/Grants.antt =====
-- The roles that the client offers, against those that the server lets be granted.
use bastiondeck.Prelude.{
  ◌≤◌, Bool, true, false, ◌||◌, not, Option, none, some, List, [], ◌∷◌, Text, js, ◌==◌, length, ◌≡◌,
  refl, arith, Bool-cases, ==_iff, inl, inr,
}
use bastiondeck.Api.Inventory.{Role, owner, admin, operator, viewer}
use bastiondeck.Hooks.{Outcome, ok, fail}
use bastiondeck.Endpoints.Calls.{Call}
use bastiondeck.Server.Roles.{rank, is_valid_role, can_assign_role}
use bastiondeck.Pages.{calls_of}
use bastiondeck.Pages.Users.{can_assign, UserForm, create_call, create_user}

abbrev pub role_name : Role → Text
role_name viewer = js "viewer"
role_name operator = js "operator"
role_name admin = js "admin"
role_name owner = js "owner"

-- What the client grants beyond the server: an owner any text that is no role, and an operator the
-- role of a viewer.
abbrev pub beyond : Role → Text → Bool
beyond owner t = not (is_valid_role t)
beyond operator t = t == js "viewer"
beyond admin t = false
beyond viewer t = false

abbrev Agrees : Role → Text → Type 0
Agrees r t = can_assign (some r) t ≡ (can_assign_role (role_name r) t || beyond r t)

Agrees-known : (r u : Role) → Agrees r (role_name u)
unfolding can_assign can_assign_role is_valid_role rank ◌==◌
Agrees-known viewer viewer = refl
Agrees-known viewer operator = refl
Agrees-known viewer admin = refl
Agrees-known viewer owner = refl
Agrees-known operator viewer = refl
Agrees-known operator operator = refl
Agrees-known operator admin = refl
Agrees-known operator owner = refl
Agrees-known admin viewer = refl
Agrees-known admin operator = refl
Agrees-known admin admin = refl
Agrees-known admin owner = refl
Agrees-known owner viewer = refl
Agrees-known owner operator = refl
Agrees-known owner admin = refl
Agrees-known owner owner = refl

Agrees-other :
    (r : Role) (t : Text)
    → (t == js "viewer" ≡ false)
    → (t == js "operator" ≡ false)
    → (t == js "admin" ≡ false)
    → (t == js "owner" ≡ false)
    → Agrees r t
unfolding can_assign can_assign_role is_valid_role rank
Agrees-other owner t h1 h2 h3 h4 = rw (h1, h2, h3, h4) refl
Agrees-other admin t h1 h2 h3 h4 = rw (h1, h2, h3, h4) refl
Agrees-other operator t h1 h2 h3 h4 = rw (h1, h2, h3, h4) refl
Agrees-other viewer t h1 h2 h3 h4 = rw (h1, h2, h3, h4) refl

Agrees-named : (r u : Role) (t : Text) → (t == role_name u ≡ true) → Agrees r t
Agrees-named r u t h = rw ((==_iff t (role_name u)).0 h) (Agrees-known r u)

-- Whoever is signed in, the client lets a role be granted exactly if the server does, save for an
-- owner who grants what is no role and an operator who grants the role of a viewer.
pub can_assign-eq-can_assign_role :
    (r : Role) (t : Text) → can_assign (some r) t ≡ (can_assign_role (role_name r) t || beyond r t)
can_assign-eq-can_assign_role r t = elim (Bool-cases (t == js "viewer")) [
  | inl h ↦ Agrees-named r viewer t h
  | inr h1 ↦ elim (Bool-cases (t == js "operator")) [
    | inl h ↦ Agrees-named r operator t h
    | inr h2 ↦ elim (Bool-cases (t == js "admin")) [
      | inl h ↦ Agrees-named r admin t h
      | inr h3 ↦ elim (Bool-cases (t == js "owner")) [
        | inl h ↦ Agrees-named r owner t h
        | inr h4 ↦ Agrees-other r t h1 h2 h3 h4
      ]
    ]
  ]
]

-- A form is sent only if it is there, the role is one that the user may grant by the client's rule,
-- and the password has ten characters; and then it is sent once and as it stands.
calls_of-create_user :
    (me : Option Role) (o : Outcome (Unit {0})) (form : Option UserForm) (c : Call) (cs : List Call)
    → calls_of (create_user me o form).1 ≡ c ∷ cs
    → (f : UserForm) × (form ≡ some f)
      × (can_assign me f.role ≡ true)
      × (10 ≤ length f.password)
      × (c ≡ create_call f)
      × (cs ≡ [])
unfolding create_user
calls_of-create_user me o none c cs h = absurd (cc)
calls_of-create_user me (ok u) (some f) c cs h =
    (f, refl, ground arith, ground arith, ground arith, ground arith)
calls_of-create_user me (fail m) (some f) c cs h =
    (f, refl, ground arith, ground arith, ground arith, ground arith)
