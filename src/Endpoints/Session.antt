-- ===== src/Endpoints/Session.antt =====
-- web/src/api/endpoints.ts: the calls for the session, users, credentials, settings and backups.
use bastiondeck.Prelude.{Bool, Option, none, some, [], ◌∷◌, ◌++◌, Text, js}
use bastiondeck.Prelude.Json.{Json, str, bool}
use bastiondeck.Endpoints.Calls.{
  Call, api_get, api_post, api_patch, api_put, api_del, json, text_of,
}

pub data StatusOp : Type 0 where
  status : StatusOp
  health : StatusOp

unfoldable pub status_call : StatusOp → Call
status_call StatusOp.status = api_get (js "/api/status") none
status_call StatusOp.health = api_get (js "/api/healthz") none

pub data AuthOp : Type 0 where
  setup : Text → Text → Option Text → AuthOp
  login : Text → Text → Option Text → AuthOp
  logout : AuthOp
  me : AuthOp
  totp_setup : AuthOp
  totp_enable : Text → AuthOp
  change_password : Text → Text → AuthOp

unfoldable pub auth_call : AuthOp → Call
auth_call (AuthOp.setup username password display_name) = api_post (js "/api/setup") (
    some (
      json (
        (js "username", some (str username))
        ∷ (js "password", some (str password))
        ∷ (js "displayName", text_of display_name)
        ∷ [])))
auth_call (AuthOp.login username password totp) = api_post (js "/api/auth/login") (
    some (
      json (
        (js "username", some (str username))
        ∷ (js "password", some (str password))
        ∷ (js "totp", text_of totp)
        ∷ [])))
auth_call AuthOp.logout = api_post (js "/api/auth/logout") none
auth_call AuthOp.me = api_get (js "/api/auth/me") none
auth_call AuthOp.totp_setup = api_post (js "/api/auth/totp/setup") none
auth_call (AuthOp.totp_enable code) =
    api_post (js "/api/auth/totp/enable") (some (json ((js "code", some (str code)) ∷ [])))
auth_call (AuthOp.change_password old_password new_password) = api_post (js "/api/auth/password") (
    some (
      json (
        (js "oldPassword", some (str old_password))
        ∷ (js "newPassword", some (str new_password))
        ∷ [])))

pub data UsersOp : Type 0 where
  list : UsersOp
  create : Json → UsersOp
  update : Text → Json → UsersOp
  remove : Text → UsersOp
  sessions : Text → UsersOp
  my_sessions : UsersOp
  revoke : Text → UsersOp
  revoke_all : UsersOp

unfoldable pub users_call : UsersOp → Call
users_call UsersOp.list = api_get (js "/api/users") none
users_call (UsersOp.create b) = api_post (js "/api/users") (some b)
users_call (UsersOp.update id b) = api_patch (js "/api/users/" ++ id) (some b)
users_call (UsersOp.remove id) = api_del (js "/api/users/" ++ id)
users_call (UsersOp.sessions id) = api_get (js "/api/users/" ++ id ++ js "/sessions") none
users_call UsersOp.my_sessions = api_get (js "/api/sessions") none
users_call (UsersOp.revoke id) = api_del (js "/api/sessions/" ++ id)
users_call UsersOp.revoke_all = api_post (js "/api/sessions/revoke-all") none

pub data CredOp : Type 0 where
  list : CredOp
  create : Json → CredOp
  update : Text → Json → CredOp
  remove : Text → CredOp

unfoldable pub cred_call : CredOp → Call
cred_call CredOp.list = api_get (js "/api/credentials") none
cred_call (CredOp.create b) = api_post (js "/api/credentials") (some b)
cred_call (CredOp.update id b) = api_patch (js "/api/credentials/" ++ id) (some b)
cred_call (CredOp.remove id) = api_del (js "/api/credentials/" ++ id)

pub data SettingsOp : Type 0 where
  get : SettingsOp
  put : Json → SettingsOp

unfoldable pub settings_call : SettingsOp → Call
settings_call SettingsOp.get = api_get (js "/api/settings") none
settings_call (SettingsOp.put b) = api_put (js "/api/settings") (some b)

pub data BackupOp : Type 0 where
  «export» : Text → BackupOp
  inspect : Text → Text → BackupOp
  restore : Text → Text → Bool → BackupOp

unfoldable pub backup_call : BackupOp → Call
backup_call (BackupOp.«export» passphrase) =
    api_post (js "/api/backup/export") (some (json ((js "passphrase", some (str passphrase)) ∷ [])))
backup_call (BackupOp.inspect backup_base64 passphrase) = api_post (js "/api/backup/inspect") (
    some (
      json (
        (js "backupBase64", some (str backup_base64))
        ∷ (js "passphrase", some (str passphrase))
        ∷ [])))
backup_call (BackupOp.restore backup_base64 passphrase confirm) =
    api_post (js "/api/backup/restore") (
      some (
        json (
          (js "backupBase64", some (str backup_base64))
          ∷ (js "passphrase", some (str passphrase))
          ∷ (js "confirm", some (bool confirm))
          ∷ [])))
