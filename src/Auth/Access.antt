-- ===== src/Auth/Access.antt =====
-- A page is shown only to a user who may see it, and the menu offers exactly the pages that are not
-- denied.
use bastiondeck.Prelude.{
  ◌↔◌, Bool, true, false, Option, none, some, Text, js, All, filter, filter_cong, ◌≡◌, refl, arith,
  if◌then◌else◌,
}
use bastiondeck.Auth.{Auth, can}
use bastiondeck.Auth.Guard.{
  GateView, connecting, to_setup, to_login, through, gate, is_some, Page, required, Screen, held,
  denied, shown, require_perm, behind, screen, NavItem, nav, is_listed, items, files, exec,
  credentials, agents, audit, users, backup,
}

-- The permission that a page requires, if any, is held.
abbrev pub IsAllowed : Auth → Option Text → Type 0
IsAllowed s none = Unit
IsAllowed s (some perm) = can s perm ≡ true

require_perm-shown_iff :
    (s : Auth) (o : Option Text) (p : Page) → (require_perm s o p ≡ shown p) ↔ IsAllowed s o
require_perm-shown_iff s none p = (λ h. tt, λ h. refl)
require_perm-shown_iff s (some perm) p = (λ h. ground arith, λ h. ground arith)

behind-shown :
    (g : GateView) (inner : Screen) (p : Page)
    → behind g inner ≡ shown p
    → (g ≡ through) × (inner ≡ shown p)
behind-shown through inner p h = (refl, h)
behind-shown connecting inner p h = absurd (cc)
behind-shown to_setup inner p h = absurd (cc)
behind-shown to_login inner p h = absurd (cc)

-- The page has finished loading, the server is set up, and a user is signed in.
abbrev pub IsSignedIn : Auth → Type 0
IsSignedIn s = (s.loading ≡ false) × (s.setup_required ≡ some false) × (is_some s.user ≡ true)

gate-through_iff : (s : Auth) → (gate s ≡ through) ↔ IsSignedIn s
unfolding gate
gate-through_iff s = (λ h. ground arith, λ h. ground arith)

-- A page shows exactly if loading is over, the server is set up, a user is signed in, and the
-- permission that the page requires, if any, is among the user's.
pub screen-eq-shown_iff :
    (s : Auth) (p : Page) → (screen s p ≡ shown p) ↔ (IsSignedIn s × IsAllowed s (required p))
unfolding screen
screen-eq-shown_iff s p = (
  (λ h.
      let (open_gate, inner) = behind-shown (gate s) (require_perm s (required p) p) p h in
      ((gate-through_iff s).0 open_gate, (require_perm-shown_iff s (required p) p).0 inner)),
  (λ h. rw ((gate-through_iff s).1 h.0) ((require_perm-shown_iff s (required p) p).1 h.1)),
)

-- `RequirePerm` lets the page show.
abbrev pub is_open : Screen → Bool
is_open (shown p) = true
is_open (denied perm) = false
is_open (held g) = false

is_open_if : (b : Bool) (p : Page) (perm : Text) → b ≡ is_open (if b then shown p else denied perm)
is_open_if true p perm = refl
is_open_if false p perm = refl

abbrev Agrees : Auth → NavItem → Type 0
Agrees s n = is_listed s n.perm ≡ is_open (require_perm s (required n.to) n.to)

nav-Agrees : (s : Auth) → All (Agrees s) nav
nav-Agrees s =
    let may = λ (p : Page) (perm : Text). is_open_if (can s perm) p perm in
    (
      refl,
      (
        refl,
        (
          may files (js "exec"),
          (
            may exec (js "exec"),
            (
              refl,
              (
                refl,
                (
                  refl,
                  (
                    refl,
                    (
                      may credentials (js "exec"),
                      (
                        may agents (js "manage_inventory"),
                        (
                          may audit (js "audit"),
                          (refl, (may users (js "manage_users"), (may backup (js "owner"), (tt)))),
                        ),
                      ),
                    ),
                  ),
                ),
              ),
            ),
          ),
        ),
      ),
    )

-- The menu lists, in order, exactly those of its entries whose page `RequirePerm` lets show: it
-- hides no page that may be seen and leads to none that is denied.
pub items-eq-open :
    (s : Auth) → items s ≡ filter (λ n. is_open (require_perm s (required n.to) n.to)) nav
unfolding items
items-eq-open s =
    filter_cong (λ n. is_listed s n.perm) (λ n. is_open (require_perm s (required n.to) n.to)) nav
      (nav-Agrees s)
