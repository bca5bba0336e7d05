-- ===== src/Tests/Wizards.antt =====
-- The wizard, the backup page, tunnels and credentials.
use bastiondeck.Prelude.{
  true, none, some, List, [], ◌∷◌, js, ◌==◌, contains, add, HasNoRepeat, Text, any, ◌≡◌, ◌≢◌, ◌↔◌,
  refl, arith,
}
use bastiondeck.Prelude.Ints.{pos}
use bastiondeck.Prelude.Sort.{sort, lt_text}
use bastiondeck.Api.Inventory.{password}
use bastiondeck.Hooks.{ok, fail}
use bastiondeck.Selection.{pick, select_hosts}
use bastiondeck.Template.{required_variables, filled}
use bastiondeck.Endpoints.Session.{BackupOp, backup_call}
use bastiondeck.Endpoints.Work.{RunOp, run_call}
use bastiondeck.Endpoints.Calls.{Call}
use bastiondeck.Pages.{calls_of}
use bastiondeck.Pages.Wizard.{chosen, Wizard, Loaded, launch}
use bastiondeck.Pages.Wizard.Launch.{IsReady, Posts, launch_iff, launch_ok}
use bastiondeck.Pages.Wizard.Variables.{fills, IsStuck, launch_stuck}
use bastiondeck.Pages.Backup.{BackupState, Counts, fresh_backup, restore}
use bastiondeck.Pages.Backup.Stale.{
  Deed, inspects, chooses, types, deeds, HasInspected, restore_needs_inspection, restore_stale,
}
use bastiondeck.Pages.Tunnels.{TunnelForm, new_tunnel}
use bastiondeck.Pages.Tunnels.Ports.{AsksFor}
use bastiondeck.Pages.Credentials.{CredentialForm}
use bastiondeck.Tests.Fixtures.{fleet, restart}

abbrev page : Loaded
page = record { hosts = fleet; snippets = some (restart ∷ []) }

abbrev filling : Wizard
filling = record {
  step = 2;
  spec = record { mode = pick; picked = js "h2" ∷ []; group_id = []; tag = [] };
  snippet_id = js "s1";
  command = js "systemctl restart ${unit}";
  vars = (js "unit", js "nginx") ∷ [];
  timeout_sec = pos 60;
  run_id = none;
  targets = [];
}

launch_iff_example :
    (calls_of (launch page (fail (js "500")) filling).1 ≢ []) ↔ IsReady page filling
launch_iff_example = launch_iff page (fail (js "500")) filling

filling-IsReady : IsReady page filling
unfolding select_hosts required_variables filled contains ◌==◌ sort add
filling-IsReady = (refl, refl, refl, (refl, tt))

launch_ok_example :
    (c : Call) × (ids : List Text) × (calls_of (launch page (ok (js "r9")) filling).1
      ≡ c ∷ run_call (RunOp.get (js "r9")) ∷ [])
    × Posts page filling ids c
    × HasNoRepeat ids
    × ((a : Text) → contains a ids ≡ any (λ h. a == h.id) (chosen page filling))
    × ((launch page (ok (js "r9")) filling).0
        ≡ record filling { run_id = some (js "r9"); step = 3; targets = [] })
launch_ok_example = launch_ok page (js "r9") filling filling-IsReady

-- The command, edited, names a variable that the snippet does not.
abbrev edited : Wizard
edited = record filling { command = js "systemctl ${verb} ${unit}" }

edited-IsStuck : IsStuck page restart (js "verb") edited
unfolding required_variables filled contains ◌==◌ sort add lt_text
edited-IsStuck = (refl, refl, refl, refl, refl)

launch_stuck_example :
    calls_of (launch page (ok (js "r9")) (fills page ((js "verb", js "stop") ∷ []) edited)).1 ≡ []
launch_stuck_example =
    launch_stuck page (ok (js "r9")) restart (js "verb") edited ((js "verb", js "stop") ∷ [])
      edited-IsStuck

abbrev counts : Counts
counts = (js "hosts", 3) ∷ []

abbrev inspected : BackupState
inspected = record { pass = js "12345678"; bundle = js "AAAA"; report = some counts }

abbrev prepared : List Deed
prepared = chooses (js "AAAA") ∷ types (js "12345678") ∷ inspects (ok counts) ∷ []

prepared_calls : calls_of (restore (ok (js "safe")) (deeds prepared fresh_backup)) ≢ []
unfolding restore deeds
prepared_calls e = cc

restore_needs_inspection_example : HasInspected prepared
restore_needs_inspection_example = restore_needs_inspection prepared (ok (js "safe")) prepared_calls

restore_other :
    calls_of
      (restore (ok (js "safe")) (deeds (chooses (js "BBBB") ∷ types (js "x") ∷ []) inspected))
    ≡ backup_call (BackupOp.restore (js "BBBB") (js "x") true) ∷ []
restore_other = restore_stale inspected counts (js "BBBB") (js "x") (ok (js "safe")) refl

abbrev web_tunnel : TunnelForm
web_tunnel = record new_tunnel {
  host_id = some (js "h1");
  local_port = some (pos 8080);
  remote_port = some (pos 65535);
}

web_tunnel-AsksFor : AsksFor web_tunnel (js "h1") 8080 65535
web_tunnel-AsksFor =
    ((refl, λ e. cc), (refl, omega arith, omega arith), (refl, omega arith, omega arith))

abbrev left_over : CredentialForm
left_over = record {
  name = js "root";
  kind = password;
  secret = js "hunter2";
  passphrase = js "old";
}
