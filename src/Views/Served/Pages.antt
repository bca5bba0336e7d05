-- ===== src/Views/Served/Pages.antt =====
-- Every page, for who may see it.
use bastiondeck.Prelude.{
  Bool, true, false, List, [], ◌∷◌, Text, js, All, All-append, ◌≡◌, refl, if◌then◌else◌,
}
use bastiondeck.Auth.{Auth, can}
use bastiondeck.Auth.Guard.{required, screen, shown}
use bastiondeck.Auth.Access.{IsAllowed, screen-eq-shown_iff}
use bastiondeck.Endpoints.Operations.{Operation, host_op}
use bastiondeck.Pages.Hosts.{list_op}
use bastiondeck.Server.Routes
use bastiondeck.Server.Routes.{may, permissions_for, route_of}
use bastiondeck.Views.{asked}
use bastiondeck.Views.Dashboard.{loads}
use bastiondeck.Views.Hosts.{hosts_loads}
use bastiondeck.Views.HostDetail.{detail_loads}
use bastiondeck.Views.Files.{listing_load, files_loads}
use bastiondeck.Views.Audit.{audit_loads}
use bastiondeck.Views.Settings.{settings_loads}
use bastiondeck.Views.Offered.{
  Browser, Open, dashboard, hosts, host_detail, files, exec, runs, run_detail, jobs, tunnels,
  snippets, credentials, agents, audit, settings, users, backup, page_of, loads_of, view_of,
  offered, IsEntitled,
}
use bastiondeck.Views.Served.Parts.{Serves, IsServed, asked-served, told_may}
use bastiondeck.Views.Served.Fleet.{hosts_view-IsServed}
use bastiondeck.Views.Served.Detail.{detail_view-IsServed}
use bastiondeck.Views.Served.People.{users_view-IsServed}
use bastiondeck.Views.Served.Work.{jobs_view-IsServed, snippets_view-IsServed, wizard_view-IsServed}
use bastiondeck.Views.Served.Watching.{run_loads-served, runs_view-IsServed, run_view-IsServed}
use bastiondeck.Views.Served.System.{
  dashboard_view-IsServed, agents_view-IsServed, audit_view-IsServed, backup_view-IsServed,
  files_view-IsServed,
}
use bastiondeck.Views.Served.Vault.{
  settings_view-IsServed, vault_view-IsServed, tunnels_view-IsServed,
}

module _ (role : Text) (s : Auth) (reads : may role Routes.read ≡ true)
    (told : s.permissions ≡ permissions_for role) where
  loads_if :
      (b : Bool) (os : List Operation)
      → (b ≡ true → All (Serves role) os)
      → All (Serves role) (if b then os else [])
  loads_if true os h = h refl
  loads_if false os h = tt

  listing-served :
      (id path : Text) → may role Routes.exec ≡ true → All (Serves role) (listing_load id path)
  unfolding route_of
  listing-served [] path h = tt
  listing-served (c ∷ id) path h = (h, tt)

  list-served : (q : Text) → Serves role (host_op (list_op q))
  unfolding route_of list_op
  list-served [] = reads
  list-served (c ∷ q) = reads

  loads-served : (o : Open) → IsAllowed s (required (page_of o)) → All (Serves role) (loads_of s o)
  unfolding route_of loads hosts_loads detail_loads files_loads audit_loads settings_loads
  loads-served (dashboard d) h = (
    reads,
    (
      reads,
      All-append (Serves role) _ _
          (loads_if (can s (js "audit")) _ (λ e. (told_may role s Routes.audit told e, tt)))
          (loads_if (can s (js "exec")) _ (λ e. (told_may role s Routes.exec told e, tt))),
    ),
  )
  loads-served (hosts q p) h = (
    list-served q,
    All-append (Serves role) _ _
        (loads_if (can s (js "exec")) _ (λ e. (told_may role s Routes.exec told e, tt)))
        (reads, tt),
  )
  loads-served (host_detail id p) h = (
    reads,
    All-append (Serves role) _ _
        (loads_if (can s (js "exec")) _ (λ e. (told_may role s Routes.exec told e, tt)))
        (reads, tt),
  )
  loads-served (files p) h =
      (reads, listing-served p.host_id p.path (told_may role s Routes.exec told h))
  loads-served (exec d w) h = (reads, (reads, (reads, tt)))
  loads-served (runs f v) h = (reads, tt)
  loads-served (run_detail id p) h = run_loads-served role id p reads
  loads-served (jobs p) h = (reads, (reads, (reads, tt)))
  loads-served (tunnels p) h = (reads, (reads, tt))
  loads-served (snippets p) h = (reads, tt)
  loads-served (credentials v f) h = (told_may role s Routes.exec told h, tt)
  loads-served (agents v n e) h = (told_may role s Routes.manage_inventory told h, tt)
  loads-served (audit p) h =
      let may_audit = told_may role s Routes.audit told h in (may_audit, (may_audit, tt))
  loads-served (settings p) h =
      (reads, loads_if (can s (js "exec")) _ (λ e. (told_may role s Routes.exec told e, tt)))
  loads-served (users p) h = (told_may role s Routes.manage_users told h, (reads, tt))
  loads-served (backup p) h = tt

  view-IsServed :
      (b : Browser) (o : Open)
      → IsAllowed s (required (page_of o))
      → IsEntitled s o
      → IsServed role (view_of b s o)
  view-IsServed b (dashboard d) h own = dashboard_view-IsServed role b.dates s d
  view-IsServed b (hosts q p) h own = hosts_view-IsServed role s reads told p own
  view-IsServed b (host_detail id p) h own =
      detail_view-IsServed role s reads told b.to_fixed b.one id p own
  view-IsServed b (files p) h own =
      files_view-IsServed role (told_may role s Routes.exec told h) b.dates b.iso b.to_fixed
        b.encode b.file_name b.file_bytes p
  view-IsServed b (exec d w) h own =
      wizard_view-IsServed role reads (told_may role s Routes.exec told h) d w
  view-IsServed b (runs f v) h own =
      runs_view-IsServed role b.dates (told_may role s Routes.exec told own) f v
  view-IsServed b (run_detail id p) h own =
      run_view-IsServed role b.dates (told_may role s Routes.exec told own) id p
  view-IsServed b (jobs p) h own = jobs_view-IsServed role s told b.dates b.seconds p own
  view-IsServed b (tunnels p) h own = tunnels_view-IsServed role s told b.dates p own
  view-IsServed b (snippets p) h own = snippets_view-IsServed role s told p reads own
  view-IsServed b (credentials v f) h own = vault_view-IsServed role s told b.dates v f own
  view-IsServed b (agents v n e) h own =
      agents_view-IsServed role (told_may role s Routes.manage_inventory told h) b.dates v n e
  view-IsServed b (audit p) h own =
      audit_view-IsServed role b.dates p (told_may role s Routes.audit told h)
  view-IsServed b (settings p) h own = settings_view-IsServed role s told p
  view-IsServed b (users p) h own =
      users_view-IsServed role reads (told_may role s Routes.manage_users told h) b.dates s p
  view-IsServed b (backup p) h own =
      backup_view-IsServed role p (told_may role s Routes.owner told h)

-- For a user whose role may read and who has been told the role's permissions: whatever page is shown
-- to that user, with forms open only for who has the button that opens them, and on the two pages of
-- the runs for who may execute, every call of an endpoint that the page makes on opening, and every
-- one that any of its controls makes, meets a route that lets that role through, so no such call is
-- refused for lack of a permission. The export of the audit log, the terminal's socket and the stream
-- of events are calls of no endpoint.
pub offered-served :
    (role : Text) (s : Auth) (b : Browser) (o : Open)
    → may role Routes.read ≡ true
    → s.permissions ≡ permissions_for role
    → screen s (page_of o) ≡ shown (page_of o)
    → IsEntitled s o
    → All (Serves role) (offered b s o)
unfolding offered
offered-served role s b o reads told seen own =
    let allowed = ((screen-eq-shown_iff s (page_of o)).0 seen).1 in
    All-append (Serves role) (loads_of s o) (asked (view_of b s o))
      (loads-served role s reads told o allowed)
      (asked-served (view-IsServed role s reads told b o allowed own))
