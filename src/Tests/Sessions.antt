-- ===== src/Tests/Sessions.antt =====
-- Sessions, the guards of the pages, and who may grant which role.
use bastiondeck.Prelude.{
  Text, ◌&&◌, if◌then◌else◌, true, false, ◌||◌, some, [], ◌∷◌, js, ◌==◌, contains, filter, length,
  ◌≡◌, ◌↔◌, refl,
}
use bastiondeck.Api.Inventory.{operator}
use bastiondeck.Hooks.{ok, fail}
use bastiondeck.Auth.{Auth, signed_out, can}
use bastiondeck.Auth.Guard.{gate, through, screen, shown, required, require_perm, nav, items, users}
use bastiondeck.Auth.{Me, Answers}
use bastiondeck.Pages.Entry.{LoginForm, submit_login, SetupForm}
use bastiondeck.Pages.Entry.Way.{is_ok, way_back, IsLetIn, ways_of, submit_login_through}
use bastiondeck.Auth.Access.{IsSignedIn, IsAllowed, is_open, screen-eq-shown_iff, items-eq-open}
use bastiondeck.Server.Roles.{can_assign_role}
use bastiondeck.Pages.Users.{can_assign}
use bastiondeck.Pages.Users.Grants.{role_name, beyond, can_assign-eq-can_assign_role}
use bastiondeck.Tests.Fixtures.{ann}

abbrev signed_in : Auth
signed_in = record {
  user = some ann;
  permissions = js "exec" ∷ js "manage_users" ∷ [];
  setup_required = some false;
  loading = false;
  token = some (js "t0");
}

screen-eq-shown_iff_example :
    (screen signed_in users ≡ shown users)
    ↔ (IsSignedIn signed_in × IsAllowed signed_in (required users))
screen-eq-shown_iff_example = screen-eq-shown_iff signed_in users

items-eq-open_example :
    items signed_in ≡ filter (λ n. is_open (require_perm signed_in (required n.to) n.to)) nav
items-eq-open_example = items-eq-open signed_in

items_signed_in : length (items signed_in) ≡ 11
unfolding items can contains ◌==◌
items_signed_in = refl

abbrev form : LoginForm
form = record { username = js "ann"; password = js "correct horse"; totp = [] }

abbrev granted : Me
granted = record { user = ann; permissions = js "exec" ∷ [] }

abbrev waiting_page : Auth
waiting_page = record signed_out { loading = false }

submit_login_through_example :
    let a : Answers = record { status = ok false; me = ok granted } in
    let done = submit_login (some (js "/runs")) true (ok (js "t1")) a form waiting_page in
    (ways_of done.1 ≡ (
      if is_ok {A = Text} (ok (js "t1")) && is_ok a.status
      then way_back (some (js "/runs")) ∷ []
      else []))
    × ((gate done.0 ≡ through) ↔ IsLetIn (ok (js "t1")) a done.0)
submit_login_through_example =
    submit_login_through (some (js "/runs")) true (ok (js "t1"))
      (record { status = ok false; me = ok granted }) form waiting_page refl refl

abbrev first_owner : SetupForm
first_owner = record {
  username = js "owner";
  display_name = js "Owner";
  password = js "correct horse";
  confirm = js "correct horse";
}

abbrev no_answers : Answers
no_answers = record { status = fail (js "502"); me = fail (js "401") }

can_assign-eq-can_assign_role_example :
    can_assign (some operator) (js "viewer")
    ≡ (can_assign_role (role_name operator) (js "viewer") || beyond operator (js "viewer"))
can_assign-eq-can_assign_role_example = can_assign-eq-can_assign_role operator (js "viewer")
