-- ===== src/Tests/Forms.antt =====
-- The forms of the pages, sent again and again.
use bastiondeck.Prelude.{none, some, List, [], ◌∷◌, js, ◌≡◌, refl}
use bastiondeck.Prelude.Ints.{pos}
use bastiondeck.Api.Inventory.{admin, password}
use bastiondeck.Hooks.{Outcome, ok, fail}
use bastiondeck.Pages.Snippets.{Draft, new_draft, save}
use bastiondeck.Pages.Jobs.{JobDraft, new_job, save_job}
use bastiondeck.Pages.Tunnels.{TunnelForm, new_tunnel, create_tunnel}
use bastiondeck.Pages.Credentials.{CredentialForm, save_credential}
use bastiondeck.Pages.Users.{UserForm, create_call, create_user}
use bastiondeck.Pages.Account.{PasswordForm, change_password}
use bastiondeck.Pages.Forms.{tries}
use bastiondeck.Pages.Forms.Resent.{IsResent}
use bastiondeck.Pages.Forms.Kept.{
  snippet_sent, job_sent, tunnel_sent, credential_sent, user_sent, password_sent, forms-IsResent,
}

abbrev three_times : List (Outcome (Unit {0}))
three_times = fail (js "502") ∷ ok tt ∷ ok tt ∷ []

abbrev newcomer : UserForm
newcomer = record {
  username = js "bob";
  display_name = js "Bob";
  role = js "operator";
  password = js "correct horse";
}

abbrev a_draft : Draft
a_draft = record new_draft { title = js "uptime"; body = js "uptime" }

abbrev a_job : JobDraft
a_job = record new_job { fields = record new_job.fields { name = js "up"; command = js "uptime" } }

abbrev a_tunnel : TunnelForm
a_tunnel = record new_tunnel {
  host_id = some (js "h1");
  local_port = some (pos 8080);
  remote_port = some (pos 80);
}

abbrev a_credential : CredentialForm
a_credential = record { name = js "root"; kind = password; secret = js "x"; passphrase = [] }

abbrev a_password : PasswordForm
a_password = record { old_password = js "old"; new_password = js "short" }

forms-IsResent_example :
    IsResent save snippet_sent three_times a_draft
    × IsResent save_job job_sent three_times a_job
    × IsResent create_tunnel tunnel_sent three_times a_tunnel
    × IsResent save_credential credential_sent three_times a_credential
    × IsResent (create_user (some admin)) (user_sent (some admin)) three_times newcomer
    × IsResent change_password password_sent three_times a_password
forms-IsResent_example =
    forms-IsResent three_times (some admin) a_draft a_job a_tunnel a_credential newcomer a_password

tries-newcomer :
    tries (create_user (some admin)) three_times (some newcomer)
    ≡ (none, create_call newcomer ∷ create_call newcomer ∷ [])
unfolding create_user
tries-newcomer = refl
