-- ===== src/Views/Served/Vault.antt =====
-- The pages of the settings, the credentials and the tunnels.
use bastiondeck.Prelude.{
  ℕ, Bool, true, false, Option, none, some, List, [], ◌∷◌, Text, js, All, ◌≡◌, refl, arith,
}
use bastiondeck.Auth.{Auth, can}
use bastiondeck.Api.Inventory.{Credential, Host, CredentialKind, password, private_key}
use bastiondeck.Api.Activity.{DoctorReport, Tunnel}
use bastiondeck.Hooks.Async.{View}
use bastiondeck.Pages.Credentials.{CredentialForm}
use bastiondeck.Pages.Tunnels.{TunnelForm, may_stop, host_of, port_of}
use bastiondeck.Server.Routes
use bastiondeck.Server.Routes.{may, permissions_for, route_of}
use bastiondeck.Template.{Vars}
use bastiondeck.Views.{Dates, asks, or_nil}
use bastiondeck.Views.Settings.{SettingsPage, save_button, doctor_rows, settings_view}
use bastiondeck.Views.Tunnels.{
  TunnelsPage, last_error, tunnel_table, tunnel_calls, tunnel_dialog, tunnels_view,
}
use bastiondeck.Views.Vault.{credential_table, passphrase_input, credential_dialog, vault_view}
use bastiondeck.Views.Served.Parts.{
  Serves, IsServed, nil, cons, IsServed-each, IsServed-if, told_may, parts,
}

module _ (role : Text) (s : Auth) (told : s.permissions ≡ permissions_for role) where
  save_button-served :
      (b : Bool) (draft : Vars)
      → (b ≡ true → may role Routes.manage_inventory ≡ true)
      → All (Serves role) (asks (save_button b draft))
  unfolding route_of
  save_button-served true draft h = (h refl, tt)
  save_button-served false draft h = tt

  doctor_rows-IsServed :
      (v : View (Option DoctorReport)) → may role Routes.exec ≡ true → IsServed role (doctor_rows v)
  unfolding route_of
  doctor_rows-IsServed v h = search (parts, tt, IsServed-if, IsServed-each) depth 30

  -- All that the controls of the page of the settings ask for is served.
  pub settings_view-IsServed : (p : SettingsPage) → IsServed role (settings_view s p)
  unfolding settings_view
  settings_view-IsServed p =
      let may_exec = told_may role s Routes.exec told in
      search
        (
          parts,
          tt,
          IsServed-if,
          IsServed-each,
          may_exec,
          doctor_rows-IsServed p.doctor,
          save_button-served _ p.draft (told_may role s Routes.manage_inventory told),
        )
        depth 30

  credential_table-IsServed :
      (dates : Dates) (v : View (List Credential)) → IsServed role (credential_table dates s v)
  unfolding credential_table route_of
  credential_table-IsServed dates v =
      let may_manage = told_may role s Routes.manage_inventory told in
      search (parts, tt, IsServed-if, IsServed-each, may_manage) depth 30

  passphrase-IsServed : (k : CredentialKind) (t : Text) → IsServed role (passphrase_input k t)
  passphrase-IsServed password t = nil
  passphrase-IsServed private_key t = cons tt nil

  credential_dialog-IsServed :
      (o : Option CredentialForm)
      → ((f : CredentialForm) → o ≡ some f → can s (js "manage_inventory") ≡ true)
      → IsServed role (credential_dialog o)
  unfolding route_of
  credential_dialog-IsServed none h = nil
  credential_dialog-IsServed (some f) h =
      let may_manage = told_may role s Routes.manage_inventory told (h f refl) in
      search (parts, tt, passphrase-IsServed f.kind) depth 30

  -- All that the controls of the page of the credentials ask for is served, if its form is open only
  -- for who has the button that opens it.
  pub vault_view-IsServed :
      (dates : Dates) (v : View (List Credential)) (o : Option CredentialForm)
      → ((f : CredentialForm) → o ≡ some f → can s (js "manage_inventory") ≡ true)
      → IsServed role (vault_view dates s v o)
  unfolding vault_view
  vault_view-IsServed dates v o own =
      search (parts, tt, credential_table-IsServed, credential_dialog-IsServed o own) depth 20

  last_error-IsServed : (o : Option Text) → IsServed role (last_error o)
  last_error-IsServed none = nil
  last_error-IsServed (some []) = nil
  last_error-IsServed (some (c ∷ t)) = cons tt nil

  stops : (t : Tunnel) → may_stop (can s (js "exec")) t ≡ true → may role Routes.exec ≡ true
  unfolding may_stop
  stops t h = told_may role s Routes.exec told (ground arith)

  tunnel_table-IsServed : (dates : Dates) (p : TunnelsPage) → IsServed role (tunnel_table dates s p)
  unfolding tunnel_table route_of
  tunnel_table-IsServed dates p =
      search (parts, tt, IsServed-if, IsServed-each, last_error-IsServed, stops) depth 40

  tunnel_ops-served :
      (f : TunnelForm) (host : Option Text) (lp rp : Option ℕ)
      → may role Routes.exec ≡ true
      → All (Serves role) (tunnel_calls f host lp rp)
  unfolding route_of
  tunnel_ops-served f none lp rp h = tt
  tunnel_ops-served f (some host) none rp h = tt
  tunnel_ops-served f (some host) (some lp) none h = tt
  tunnel_ops-served f (some host) (some lp) (some rp) h = (h, tt)

  tunnel_dialog-IsServed :
      (hosts : List Host) (o : Option TunnelForm)
      → ((f : TunnelForm) → o ≡ some f → can s (js "exec") ≡ true)
      → IsServed role (tunnel_dialog hosts o)
  tunnel_dialog-IsServed hosts none h = nil
  tunnel_dialog-IsServed hosts (some f) h =
      let may_exec = told_may role s Routes.exec told (h f refl) in
      search
        (
          parts,
          tt,
          tunnel_ops-served f (host_of f.host_id) (port_of f.local_port) (port_of f.remote_port)
              may_exec,
        )
        depth 30

  -- All that the controls of the page of the tunnels ask for is served, if its form is open only for
  -- who has the button that opens it.
  pub tunnels_view-IsServed :
      (dates : Dates) (p : TunnelsPage)
      → ((f : TunnelForm) → p.form ≡ some f → can s (js "exec") ≡ true)
      → IsServed role (tunnels_view dates s p)
  unfolding tunnels_view
  tunnels_view-IsServed dates p own =
      search
        (parts, tt, tunnel_table-IsServed, tunnel_dialog-IsServed (or_nil p.hosts.value) p.form own)
        depth 20
