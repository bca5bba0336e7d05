-- ===== src/Views/Offered.antt =====
-- What an open page asks of the server, on opening and by its controls, for every page of
-- web/src/App.tsx behind the gate.
use bastiondeck.Prelude.{ℕ, true, Option, some, List, [], ◌++◌, Text, js, ◌≡◌}
use bastiondeck.Prelude.Ints.{ℤ}
use bastiondeck.Api.Inventory.{Agent, Credential}
use bastiondeck.Hooks.Async.{View}
use bastiondeck.Auth.{Auth, can}
use bastiondeck.Auth.Guard.{Page}
use bastiondeck.Endpoints.Operations.{Operation}
use bastiondeck.Pages.Backup.{BackupState}
use bastiondeck.Pages.Credentials.{CredentialForm}
use bastiondeck.Pages.Jobs.{JobDraft}
use bastiondeck.Pages.Operations.{Enrolled}
use bastiondeck.Pages.Snippets.{Draft}
use bastiondeck.Pages.Tunnels.{TunnelForm}
use bastiondeck.Pages.Wizard.{Wizard}
use bastiondeck.Views.{Node, Dates, asked}
use bastiondeck.Views.Dashboard.{Dashboard, loads, dashboard_view}
use bastiondeck.Views.Hosts.{HostsPage, hosts_loads, hosts_view}
use bastiondeck.Views.HostDetail.{HostDetail, detail_loads, detail_view}
use bastiondeck.Views.Files.{FilesPage, files_loads, files_view}
use bastiondeck.Views.Wizard.{Sources, wizard_loads, wizard_view}
use bastiondeck.Api.Activity.{Run}
use bastiondeck.Views.Runs.{RunDetail, runs_loads, runs_view, run_loads, run_view}
use bastiondeck.Views.Jobs.{JobsPage, jobs_loads, jobs_view}
use bastiondeck.Views.Tunnels.{TunnelsPage, tunnels_loads, tunnels_view}
use bastiondeck.Views.Snippets.{SnippetsPage, snippets_loads, snippets_view}
use bastiondeck.Views.Vault.{vault_loads, vault_view, backup_view}
use bastiondeck.Views.Agents.{agents_loads, agents_view}
use bastiondeck.Views.Audit.{AuditPage, audit_loads, audit_view}
use bastiondeck.Views.Settings.{SettingsPage, settings_loads, settings_view}
use bastiondeck.Views.Users.{UsersPage, users_loads, users_view}
use bastiondeck.Views.Served.Fleet
use bastiondeck.Views.Served.Detail.{IsOwnTab}

-- What the browser gives: its dates, the text of a time in seconds, `toFixed`, the unit in which
-- metrics are whole, base64 of a text, a thousandth of a number, and the file that an upload chooses.
pub record Browser : Type 0 where
  pub dates : Dates
  pub iso : ℤ → Text
  pub to_fixed : ℕ → ℕ → ℕ → Text
  pub one : ℕ
  pub encode : Text → Text
  pub seconds : ℕ → Text
  pub file_name : Text
  pub file_bytes : Text

pub data Open : Type 0 where
  dashboard : Dashboard → Open
  hosts : Text → HostsPage → Open
  host_detail : Text → HostDetail → Open
  files : FilesPage → Open
  exec : Sources → Wizard → Open
  runs : Text → View (List Run) → Open
  run_detail : Text → RunDetail → Open
  jobs : JobsPage → Open
  tunnels : TunnelsPage → Open
  snippets : SnippetsPage → Open
  credentials : View (List Credential) → Option CredentialForm → Open
  agents : View (List Agent) → Text → Option Enrolled → Open
  audit : AuditPage → Open
  settings : SettingsPage → Open
  users : UsersPage → Open
  backup : BackupState → Open

abbrev pub page_of : Open → Page
page_of (dashboard d) = Page.dashboard
page_of (hosts q p) = Page.hosts
page_of (host_detail id p) = Page.host_detail
page_of (files p) = Page.files
page_of (exec d w) = Page.exec
page_of (runs f v) = Page.runs
page_of (run_detail id p) = Page.run_detail
page_of (jobs p) = Page.jobs
page_of (tunnels p) = Page.tunnels
page_of (snippets p) = Page.snippets
page_of (credentials v f) = Page.credentials
page_of (agents v n e) = Page.agents
page_of (audit p) = Page.audit
page_of (settings p) = Page.settings
page_of (users p) = Page.users
page_of (backup p) = Page.backup

abbrev pub loads_of : Auth → Open → List Operation
loads_of s (dashboard d) = loads s
loads_of s (hosts q p) = hosts_loads s q
loads_of s (host_detail id p) = detail_loads s id
loads_of s (files p) = files_loads p
loads_of s (exec d w) = wizard_loads
loads_of s (runs f v) = runs_loads
loads_of s (run_detail id p) = run_loads id p
loads_of s (jobs p) = jobs_loads
loads_of s (tunnels p) = tunnels_loads
loads_of s (snippets p) = snippets_loads
loads_of s (credentials v f) = vault_loads
loads_of s (agents v n e) = agents_loads
loads_of s (audit p) = audit_loads p
loads_of s (settings p) = settings_loads s
loads_of s (users p) = users_loads
loads_of s (backup p) = []

abbrev pub view_of : Browser → Auth → Open → List Node
view_of b s (dashboard d) = dashboard_view b.dates s d
view_of b s (hosts q p) = hosts_view s p
view_of b s (host_detail id p) = detail_view b.to_fixed b.one s id p
view_of b s (files p) = files_view b.dates b.iso b.to_fixed b.encode b.file_name b.file_bytes p
view_of b s (exec d w) = wizard_view d w
view_of b s (runs f v) = runs_view b.dates f v
view_of b s (run_detail id p) = run_view b.dates id p
view_of b s (jobs p) = jobs_view b.dates b.seconds s p
view_of b s (tunnels p) = tunnels_view b.dates s p
view_of b s (snippets p) = snippets_view s p
view_of b s (credentials v f) = vault_view b.dates s v f
view_of b s (agents v n e) = agents_view b.dates v n e
view_of b s (audit p) = audit_view b.dates p
view_of b s (settings p) = settings_view s p
view_of b s (users p) = users_view b.dates s p
view_of b s (backup p) = backup_view p

unfoldable pub offered : Browser → Auth → Open → List Operation
offered b s o = loads_of s o ++ asked (view_of b s o)

-- A form or a tab is open only for who has the button that opens it; a page of the runs, which shows
-- its buttons to everyone, only for who may execute.
abbrev pub IsEntitled : Auth → Open → Type 0
IsEntitled s (hosts q p) = Fleet.IsOwn s p
IsEntitled s (host_detail id p) = IsOwnTab s p.tab
IsEntitled s (jobs p) = (d : JobDraft) → p.editing ≡ some d → can s (js "exec") ≡ true
IsEntitled s (tunnels p) = (f : TunnelForm) → p.form ≡ some f → can s (js "exec") ≡ true
IsEntitled s (snippets p) = (d : Draft) → p.editing ≡ some d → can s (js "manage_inventory") ≡ true
IsEntitled s (credentials v o) =
    (f : CredentialForm) → o ≡ some f → can s (js "manage_inventory") ≡ true
IsEntitled s (runs f v) = can s (js "exec") ≡ true
IsEntitled s (run_detail id p) = can s (js "exec") ≡ true
IsEntitled s (dashboard d) = Unit
IsEntitled s (files p) = Unit
IsEntitled s (exec d w) = Unit
IsEntitled s (agents v n e) = Unit
IsEntitled s (audit p) = Unit
IsEntitled s (settings p) = Unit
IsEntitled s (users p) = Unit
IsEntitled s (backup p) = Unit
