-- ===== src/Pages/Credentials/Secrets.antt =====
-- Which secrets are sent.
use bastiondeck.Prelude.{
  Bool, true, false, ◌&&◌, ◌||◌, not, Option, none, some, [], ◌∷◌, Text, js, ◌==◌, ◌≡◌, refl, arith,
  is_empty, if◌then◌else◌,
}
use bastiondeck.Prelude.Json.{Json, str, obj}
use bastiondeck.Api.Inventory.{CredentialKind, password, private_key}
use bastiondeck.Client.{get_field}
use bastiondeck.Hooks.{Outcome, ok, fail}
use bastiondeck.Endpoints.Calls.{Call}
use bastiondeck.Endpoints.Session.{cred_call}
use bastiondeck.Pages.{calls_of}
use bastiondeck.Pages.Wizard.{is_blank}
use bastiondeck.Pages.Credentials.{CredentialForm, credential_request, save_credential}

-- A member of the body of a call
abbrev pub sent : Text → Call → Option Json
sent k c = elim c.body [ none ↦ none | some (obj fs) ↦ get_field k fs | some _ ↦ none ]

abbrev is_key : CredentialKind → Bool
is_key private_key = true
is_key password = false

-- A credential is sent in one call, and only if its name and its secret are not blank.
calls_of-save_credential :
    (o : Outcome (Unit {0})) (f : CredentialForm)
    → calls_of (save_credential o (some f)).1
      ≡ (if is_blank f.name || is_blank f.secret then [] else credential_request f ∷ [])
unfolding save_credential
calls_of-save_credential (ok tt) f = ground arith
calls_of-save_credential (fail m) f = ground arith

-- The secret is sent as it stands; a passphrase is sent with a private key alone, and only if it is
-- not empty: one that is left over from a choice of kind does not go out with a password.
sent-credential_request :
    (f : CredentialForm)
    → (sent (js "secret") (credential_request f) ≡ some (str f.secret))
      × (sent (js "passphrase") (credential_request f) ≡ (
          if is_key f.kind && not (is_empty f.passphrase) then some (str f.passphrase) else none))
unfolding get_field cred_call ◌==◌
sent-credential_request f = go f.kind f.passphrase
  where
    go :
        (k : CredentialKind) (p : Text)
        → let c = credential_request (record f { kind = k; passphrase = p }) in
          (sent (js "secret") c ≡ some (str f.secret))
          × (sent (js "passphrase") c
              ≡ (if is_key k && not (is_empty p) then some (str p) else none))
    go password p = (refl, refl)
    go private_key [] = (refl, refl)
    go private_key (c ∷ p) = (refl, refl)
