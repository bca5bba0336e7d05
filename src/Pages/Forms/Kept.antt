-- ===== src/Pages/Forms/Kept.antt =====
-- The forms of the pages keep the promises.
use bastiondeck.Prelude.{
  ◌||◌, not, Option, none, some, List, length, ltb, if◌then◌else◌, refl, arith,
}
use bastiondeck.Api.Inventory.{Role}
use bastiondeck.Hooks.{Outcome, ok, fail}
use bastiondeck.Endpoints.Calls.{Call}
use bastiondeck.Pages.Wizard.{is_blank}
use bastiondeck.Pages.Snippets.{Draft, save, save_call}
use bastiondeck.Pages.Jobs.{JobDraft, save_job, save_job_call}
use bastiondeck.Pages.Tunnels.{TunnelForm, host_of, port_of, tunnel_request, create_tunnel}
use bastiondeck.Pages.Credentials.{CredentialForm, credential_request, save_credential}
use bastiondeck.Pages.Users.{UserForm, can_assign, create_call, create_user}
use bastiondeck.Pages.Account.{PasswordForm, password_request, change_password}
use bastiondeck.Pages.Forms.{FormLaws}
use bastiondeck.Pages.Forms.Resent.{IsResent, tries-IsResent}

-- What a form is sent by, if its checks pass.
abbrev pub snippet_sent : Draft → Option Call
snippet_sent d = if is_blank d.title || is_blank d.body then none else some (save_call d)

snippet_laws : FormLaws Draft save
unfolding save
snippet_laws = record {
  request = snippet_sent;
  absent = λ o. refl;
  sends = λ o f. elim o [ ok u ↦ ground arith | fail m ↦ ground arith ];
  kept = λ m f. ground arith;
  closes = λ f. ground arith;
}

abbrev pub job_sent : JobDraft → Option Call
job_sent d =
    if is_blank d.fields.name || is_blank d.fields.command
    then none
    else some (save_job_call d d.stored)

job_laws : FormLaws JobDraft save_job
unfolding save_job
job_laws = record {
  request = job_sent;
  absent = λ o. refl;
  sends = λ o f. elim o [ ok u ↦ ground arith | fail m ↦ ground arith ];
  kept = λ m f. ground arith;
  closes = λ f. ground arith;
}

abbrev pub tunnel_sent : TunnelForm → Option Call
tunnel_sent f = elim (host_of f.host_id) [
  | none ↦ none
  | some host ↦ elim (port_of f.local_port) [
    | none ↦ none
    | some lp ↦ elim (port_of f.remote_port) [
      | none ↦ none
      | some rp ↦ some (tunnel_request f host lp rp)
    ]
  ]
]

tunnel_laws : FormLaws TunnelForm create_tunnel
unfolding create_tunnel
tunnel_laws = record {
  request = tunnel_sent;
  absent = λ o. refl;
  sends = λ o f. elim o [ ok u ↦ ground arith | fail m ↦ ground arith ];
  kept = λ m f. ground arith;
  closes = λ f. ground arith;
}

abbrev pub credential_sent : CredentialForm → Option Call
credential_sent f =
    if is_blank f.name || is_blank f.secret then none else some (credential_request f)

credential_laws : FormLaws CredentialForm save_credential
unfolding save_credential
credential_laws = record {
  request = credential_sent;
  absent = λ o. refl;
  sends = λ o f. elim o [ ok u ↦ ground arith | fail m ↦ ground arith ];
  kept = λ m f. ground arith;
  closes = λ f. ground arith;
}

abbrev pub user_sent : Option Role → UserForm → Option Call
user_sent me f =
    if not (can_assign me f.role)
    then none
    else if ltb (length f.password) 10
    then none
    else some (create_call f)

user_laws : (me : Option Role) → FormLaws UserForm (create_user me)
unfolding create_user
user_laws me = record {
  request = user_sent me;
  absent = λ o. refl;
  sends = λ o f. elim o [ ok u ↦ ground arith | fail m ↦ ground arith ];
  kept = λ m f. ground arith;
  closes = λ f. ground arith;
}

abbrev pub password_sent : PasswordForm → Option Call
password_sent f = if ltb (length f.new_password) 10 then none else some (password_request f)

password_laws : FormLaws PasswordForm change_password
unfolding change_password
password_laws = record {
  request = password_sent;
  absent = λ o. refl;
  sends = λ o f. elim o [ ok u ↦ ground arith | fail m ↦ ground arith ];
  kept = λ m f. ground arith;
  closes = λ f. ground arith;
}

-- The forms for a snippet, a job, a tunnel, a credential, a user and a password, each sent once for
-- each of any outcomes: while its checks pass it is sent again, the same call, up to the first outcome
-- that is an answer of the server, and never after it; it stays as it is up to then, and is closed by
-- it. A form whose checks refuse it is never sent, and stays.
pub forms-IsResent :
    (os : List (Outcome (Unit {0}))) (me : Option Role) (d : Draft) (j : JobDraft) (t : TunnelForm)
    (c : CredentialForm) (u : UserForm) (p : PasswordForm)
    → IsResent save snippet_sent os d
      × IsResent save_job job_sent os j
      × IsResent create_tunnel tunnel_sent os t
      × IsResent save_credential credential_sent os c
      × IsResent (create_user me) (user_sent me) os u
      × IsResent change_password password_sent os p
unfolding snippet_laws job_laws tunnel_laws credential_laws user_laws password_laws can_assign
forms-IsResent os me d j t c u p = (
  tries-IsResent save snippet_laws os d,
  tries-IsResent save_job job_laws os j,
  tries-IsResent create_tunnel tunnel_laws os t,
  tries-IsResent save_credential credential_laws os c,
  tries-IsResent (create_user me) (user_laws me) os u,
  tries-IsResent change_password password_laws os p,
)
