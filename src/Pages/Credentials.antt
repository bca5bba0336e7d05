-- ===== src/Pages/Credentials.antt =====
-- web/src/pages/Credentials.tsx: the form for a credential.
pub mod Secrets
use bastiondeck.Prelude.{Bool, ◌||◌, Option, none, some, List, [], ◌∷◌, Text, js, if◌then◌else◌}
use bastiondeck.Prelude.Json.{Json, str}
use bastiondeck.Api.Inventory.{CredentialKind, password, private_key}
use bastiondeck.Hooks.{Outcome, ok, fail}
use bastiondeck.Toast.{success, error}
use bastiondeck.Endpoints.Calls.{Call, json}
use bastiondeck.Endpoints.Session.{CredOp, cred_call}
use bastiondeck.Pages.{Effect, calls, says, reloads, attempt, confirmed}
use bastiondeck.Pages.Wizard.{is_blank}

pub record CredentialForm : Type 0 where
  pub name : Text
  pub kind : CredentialKind
  pub secret : Text
  pub passphrase : Text

abbrev new_credential : CredentialForm
new_credential = record { name = []; kind = password; secret = []; passphrase = [] }

abbrev kind_name : CredentialKind → Text
kind_name password = js "password"
kind_name private_key = js "private_key"

-- `form.kind === 'private_key' ? form.passphrase || undefined : undefined`
abbrev passphrase_for : CredentialKind → Text → Option Json
passphrase_for password s = none
passphrase_for private_key [] = none
passphrase_for private_key (c ∷ s) = some (str (c ∷ s))

abbrev pub credential_op : CredentialForm → CredOp
credential_op f =
    (CredOp.create (
      json (
        (js "name", some (str f.name))
        ∷ (js "kind", some (str (kind_name f.kind)))
        ∷ (js "secret", some (str f.secret))
        ∷ (js "passphrase", passphrase_for f.kind f.passphrase)
        ∷ [])))

abbrev pub credential_request : CredentialForm → Call
credential_request f = cred_call (credential_op f)

unfoldable pub save_credential :
    Outcome (Unit {0}) → Option CredentialForm → Option CredentialForm × List Effect
save_credential o none = (none, [])
save_credential o (some f) =
    if is_blank f.name || is_blank f.secret
    then (some f, says error (js "名称和凭据内容不能为空") ∷ [])
    else attempt (credential_request f) (some f) o
        (λ _. (none, says success (js "凭据已加密入库（AES-256-GCM，仅连接时解密）") ∷ reloads ∷ []))

-- The confirmed removal of a credential
unfoldable remove_credential : Text → Outcome (Unit {0}) → List Effect
remove_credential id o = confirmed (cred_call (CredOp.remove id)) o (λ _. reloads ∷ [])
