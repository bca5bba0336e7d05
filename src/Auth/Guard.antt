-- ===== src/Auth/Guard.antt =====
-- web/src/components/Guard.tsx, the routes of web/src/App.tsx and the menu of
-- web/src/components/Layout.tsx. How the router matches a path is not modelled.
use bastiondeck.Prelude.{
  Bool, true, false, Option, none, some, List, [], ◌∷◌, Text, js, filter, if◌then◌else◌,
}
use bastiondeck.Auth.{Auth, can}

pub data GateView : Type 0 where
  connecting to_setup to_login through : GateView

abbrev gate_user : Bool → GateView
gate_user true = through
gate_user false = to_login

abbrev pub gate_setup : Option Bool → Bool → GateView
gate_setup none signed_in = connecting
gate_setup (some true) signed_in = to_setup
gate_setup (some false) signed_in = gate_user signed_in

abbrev pub is_some {ℓ} : {A : Type ℓ} → Option A → Bool
is_some none = false
is_some (some a) = true

-- The component `Gate`
unfoldable pub gate : Auth → GateView
gate s = if s.loading then connecting else gate_setup s.setup_required (is_some s.user)

pub data Page : Type 0 where
  dashboard hosts host_detail files exec runs run_detail jobs tunnels snippets : Page
  credentials agents audit settings users backup not_found : Page

-- The `perm` of the `RequirePerm` around a page, if there is one.
abbrev pub required : Page → Option Text
required files = some (js "exec")
required exec = some (js "exec")
required credentials = some (js "exec")
required agents = some (js "manage_inventory")
required audit = some (js "audit")
required users = some (js "manage_users")
required backup = some (js "owner")
required _ = none

-- What the routes behind the gate show.
pub data Screen : Type 0 where
  held : GateView → Screen
  denied : Text → Screen
  shown : Page → Screen

-- The component `RequirePerm`
abbrev pub require_perm : Auth → Option Text → Page → Screen
require_perm s none p = shown p
require_perm s (some perm) p = if can s perm then shown p else denied perm

abbrev pub behind : GateView → Screen → Screen
behind through inner = inner
behind connecting inner = held connecting
behind to_setup inner = held to_setup
behind to_login inner = held to_login

unfoldable pub screen : Auth → Page → Screen
unfolding gate
screen s p = behind (gate s) (require_perm s (required p) p)

pub record NavItem : Type 0 where
  pub to : Page
  pub perm : Option Text

abbrev item : Page → NavItem
item p = record { to = p; perm = none }

abbrev item_for : Page → Text → NavItem
item_for p perm = record { to = p; perm = some perm }

abbrev pub nav : List NavItem
nav =
    item dashboard
    ∷ item hosts
    ∷ item_for files (js "exec")
    ∷ item_for exec (js "exec")
    ∷ item runs
    ∷ item jobs
    ∷ item tunnels
    ∷ item snippets
    ∷ item_for credentials (js "exec")
    ∷ item_for agents (js "manage_inventory")
    ∷ item_for audit (js "audit")
    ∷ item settings
    ∷ item_for users (js "manage_users")
    ∷ item_for backup (js "owner")
    ∷ []

-- `!n.perm || can(n.perm)`
abbrev pub is_listed : Auth → Option Text → Bool
is_listed s none = true
is_listed s (some []) = true
is_listed s (some (c ∷ perm)) = can s (c ∷ perm)

unfoldable pub items : Auth → List NavItem
items s = filter (λ n. is_listed s n.perm) nav
