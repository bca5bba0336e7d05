-- ===== src/Tests/Screens.antt =====
-- What pages show, and what they ask of the server.
use bastiondeck.Prelude.{
  arith, true, false, Option, none, some, List, [], ◌∷◌, js, All, any, contains, ◌==◌, ◌≡◌, ◌⊎◌,
  ◌↔◌, refl, length,
}
use bastiondeck.Prelude.Ints.{pos}
use bastiondeck.Api.Inventory.{Credential, password}
use bastiondeck.Api.Activity.{Run, DoctorReport}
use bastiondeck.Hooks.Async.{View}
use bastiondeck.Auth.{Auth, can}
use bastiondeck.Auth.Guard.{screen, shown, gate}
use bastiondeck.Endpoints.Operations.{run_op, call}
use bastiondeck.Endpoints.Work.{RunOp}
use bastiondeck.Format.{unit_of}
use bastiondeck.Format.Sizes.{Loops, IsUnit, Loops-unit_of}
use bastiondeck.Pages.Runs.{listed, may_cancel}
use bastiondeck.Server.Routes
use bastiondeck.Server.Routes.{may, permissions_for, route_of}
use bastiondeck.Server.Routes.Served.{serve-call}
use bastiondeck.Server.Routes.Mux.{serve}
use bastiondeck.Views.{Dates, asked, each, only_if, or_nil, flat}
use bastiondeck.Views.Dashboard.{doctor_panel}
use bastiondeck.Views.Dashboard.Health.{is_badge, IsUnwell, doctor_panel-bad_iff}
use bastiondeck.Views.Runs.{runs_view}
use bastiondeck.Views.Offered.{Browser, Open, page_of, offered}
use bastiondeck.Views.Served.Parts.{Serves}
use bastiondeck.Views.Served.Pages.{offered-served}
use bastiondeck.Views.Served.Runs.{runs_view-served_iff}
use bastiondeck.Views.Vault.{vault_view, credential_table}
use bastiondeck.Views.Widgets.{sparkline, IsInFrame, sparkline-IsInFrame}
use bastiondeck.Tests.Fixtures.{ann, one_run}

abbrev dates : Dates
dates = record { time = λ s. none; locale = λ t. js "then"; now = pos 0 }

abbrev browser : Browser
browser = record {
  dates = dates;
  iso = λ t. js "then";
  to_fixed = λ a b k. js "1";
  one = 10;
  encode = λ s. s;
  seconds = λ n. js "60";
  file_name = js "notes.txt";
  file_bytes = [];
}

abbrev an_admin : Auth
an_admin = record {
  user = some ann;
  permissions = permissions_for (js "admin");
  setup_required = some false;
  loading = false;
  token = some (js "t0");
}

abbrev root_key : Credential
root_key = record {
  id = js "c1";
  name = js "root";
  kind = password;
  fingerprint = none;
  created_by = js "u1";
  created_at = js "2026-01-01T00:00:00Z";
  updated_at = js "2026-01-01T00:00:00Z";
}

-- The page of the credentials, with a form that is filled in.
abbrev vault : Open
vault =
    Open.credentials (record { value = some (root_key ∷ []); error = none; loading = false })
      (some (record { name = js "web"; kind = password; secret = js "s3cret"; passphrase = [] }))

admin_reads : may (js "admin") Routes.read ≡ true
unfolding may
admin_reads = refl

vault_shown : screen an_admin (page_of vault) ≡ shown (page_of vault)
unfolding screen gate can permissions_for may contains ◌==◌
vault_shown = refl

vault_manages : can an_admin (js "manage_inventory") ≡ true
unfolding can permissions_for may contains ◌==◌
vault_manages = refl

-- Its own listing, one removal, and what the form saves
vault_offers : length (offered browser an_admin vault) ≡ 3
unfolding offered asked vault_view credential_table each only_if permissions_for may can contains
    ◌==◌
vault_offers = refl

offered-served_example : All (Serves (js "admin")) (offered browser an_admin vault)
offered-served_example =
    offered-served (js "admin") an_admin browser vault admin_reads refl vault_shown
      (λ f e. vault_manages)

abbrev history : View (List Run)
history = record { value = some (one_run ∷ []); error = none; loading = false }

runs_view-served_iff_example :
    All (Serves (js "viewer")) (asked (runs_view dates (js "running") history)) ↔ (
      (may (js "viewer") Routes.exec ≡ true)
      ⊎ (any may_cancel (listed (js "running") (or_nil history.value)) ≡ false))
runs_view-served_iff_example = runs_view-served_iff (js "viewer") dates (js "running") history refl

serve-call_example :
    serve
      (call (run_op (RunOp.cancel (js "run_07")))).method
      (call (run_op (RunOp.cancel (js "run_07")))).path
    ≡ some (route_of (run_op (RunOp.cancel (js "run_07"))))
serve-call_example =
    serve-call (run_op (RunOp.cancel (js "run_07")))
      ((refl, (refl, (refl, (refl, (refl, (refl, (refl, tt))))))), tt)

sparkline-IsInFrame_example : All IsInFrame (sparkline 10 (3 ∷ 25 ∷ 0 ∷ []))
sparkline-IsInFrame_example = sparkline-IsInFrame 10 (3 ∷ 25 ∷ 0 ∷ []) (omega arith)

Loops-unit_of_example : Loops 3000000 4 1 0 (unit_of 3000000) × IsUnit 4 3000000 (unit_of 3000000)
Loops-unit_of_example = Loops-unit_of 3000000

abbrev checkup : View (Option DoctorReport)
checkup = record {
  value =
      some (
        some
          (record { ok = false; version = js "1"; time = js "now"; checks = []; coverage = [] }));
  error = none;
  loading = false;
}

doctor_panel-bad_iff_example : (any (is_badge (js "异常")) (doctor_panel an_admin checkup) ≡ true) ↔ (
    (can an_admin (js "exec") ≡ true) × (checkup.loading ≡ false) × IsUnwell (flat checkup.value))
doctor_panel-bad_iff_example = doctor_panel-bad_iff an_admin checkup
