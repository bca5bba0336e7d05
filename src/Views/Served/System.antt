-- ===== src/Views/Served/System.antt =====
-- The dashboard, and the pages of agents, audit log, settings, credentials, backups, tunnels and files.
use bastiondeck.Prelude.{ℕ, true, Option, none, some, List, [], ◌∷◌, Text, ◌≡◌}
use bastiondeck.Prelude.Ints.{ℤ}
use bastiondeck.Auth.{Auth}
use bastiondeck.Api.Inventory.{Agent, DirEntry}
use bastiondeck.Api.Activity.{DoctorReport}
use bastiondeck.Hooks.Async.{View}
use bastiondeck.Pages.Backup.{BackupState, Counts}
use bastiondeck.Pages.Files.{Editing}
use bastiondeck.Pages.Operations.{Enrolled}
use bastiondeck.Server.Routes
use bastiondeck.Server.Routes.{may, permissions_for, route_of}
use bastiondeck.Views.{Dates}
use bastiondeck.Views.Dashboard.{
  Dashboard, Chain, reason, report, chain_report, doctor_panel, audit_panel, dashboard_view,
}
use bastiondeck.Views.Files.{
  FilesPage, crumb_nodes, listing_table, editor, mkdir_modal, rename_modal, files_view,
}
use bastiondeck.Views.Agents.{agent_rows, enrol_dialog, agents_view}
use bastiondeck.Views.Audit.{AuditPage, chain_badge, chain_reason, audit_view}
use bastiondeck.Views.Vault.{restore_button, report_text, backup_view}
use bastiondeck.Views.Served.Parts.{IsServed, nil, cons, IsServed-each, IsServed-if, parts}

module _ (role : Text) where
  reason-IsServed : (o : Option Text) → IsServed role (reason o)
  reason-IsServed none = nil
  reason-IsServed (some []) = nil
  reason-IsServed (some (c ∷ s)) = cons tt nil

  report-IsServed : (o : Option DoctorReport) → IsServed role (report o)
  report-IsServed none = cons tt nil
  report-IsServed (some r) = search (parts, tt, IsServed-each) depth 20

  chain_report-IsServed : (o : Option Chain) → IsServed role (chain_report o)
  chain_report-IsServed none = nil
  chain_report-IsServed (some c) = search (parts, tt, reason-IsServed) depth 20

  doctor_panel-IsServed :
      (s : Auth) (v : View (Option DoctorReport)) → IsServed role (doctor_panel s v)
  unfolding doctor_panel
  doctor_panel-IsServed s v = search (parts, tt, IsServed-if, report-IsServed) depth 20

  audit_panel-IsServed : (s : Auth) (v : View (Option Chain)) → IsServed role (audit_panel s v)
  unfolding audit_panel
  audit_panel-IsServed s v = search (parts, tt, IsServed-if, chain_report-IsServed) depth 20

  -- The dashboard has no control that asks for anything.
  pub dashboard_view-IsServed :
      (dates : Dates) (s : Auth) (d : Dashboard) → IsServed role (dashboard_view dates s d)
  unfolding dashboard_view
  dashboard_view-IsServed dates s d =
      search (parts, tt, IsServed-if, IsServed-each, doctor_panel-IsServed, audit_panel-IsServed)
        depth 30

  module _ (manages : may role Routes.manage_inventory ≡ true) where
    agent_rows-IsServed :
        (dates : Dates) (o : Option (List Agent)) → IsServed role (agent_rows dates o)
    unfolding route_of
    agent_rows-IsServed dates none = nil
    agent_rows-IsServed dates (some []) = cons tt nil
    agent_rows-IsServed dates (some (a ∷ as_)) =
        IsServed-each (a ∷ as_) (λ b. search (parts, tt) depth 30)

    enrol_dialog-IsServed : (o : Option Enrolled) → IsServed role (enrol_dialog o)
    enrol_dialog-IsServed none = nil
    enrol_dialog-IsServed (some e) = search (parts, tt) depth 20

    -- All that the controls of the page of the agents ask for is served.
    pub agents_view-IsServed :
        (dates : Dates) (v : View (List Agent)) (name : Text) (e : Option Enrolled)
        → IsServed role (agents_view dates v name e)
    unfolding agents_view route_of
    agents_view-IsServed dates v name e =
        search (parts, tt, IsServed-if, agent_rows-IsServed, enrol_dialog-IsServed) depth 20

  chain_badge-IsServed : (o : Option Chain) → IsServed role (chain_badge o)
  chain_badge-IsServed none = nil
  chain_badge-IsServed (some c) = cons tt nil

  chain_reason-IsServed : (o : Option Chain) → IsServed role (chain_reason o)
  chain_reason-IsServed none = nil
  chain_reason-IsServed (some c) = reason-IsServed c.reason

  -- All that the controls of the page of the audit log ask for is served; its export is a download.
  pub audit_view-IsServed :
      (dates : Dates) (p : AuditPage)
      → may role Routes.audit ≡ true
      → IsServed role (audit_view dates p)
  unfolding audit_view route_of
  audit_view-IsServed dates p h =
      search
        (
          parts,
          tt,
          IsServed-if,
          IsServed-each,
          chain_badge-IsServed p.verify.value,
          chain_reason-IsServed p.verify.value,
        )
        depth 30

  restore_button-IsServed :
      (s : BackupState) (o : Option Counts)
      → may role Routes.owner ≡ true
      → IsServed role (restore_button s o)
  unfolding route_of
  restore_button-IsServed s none h = nil
  restore_button-IsServed s (some c) h = search (parts, tt) depth 10

  report_text-IsServed : (o : Option Counts) → IsServed role (report_text o)
  report_text-IsServed none = nil
  report_text-IsServed (some c) = cons tt nil

  -- All that the controls of the page of the backups ask for is served.
  pub backup_view-IsServed :
      (s : BackupState) → may role Routes.owner ≡ true → IsServed role (backup_view s)
  unfolding backup_view route_of
  backup_view-IsServed s h =
      search (parts, tt, restore_button-IsServed s s.report h, report_text-IsServed) depth 30

  module _ (executes : may role Routes.exec ≡ true) where
    crumbs-IsServed : (cs : List Text) → IsServed role (crumb_nodes cs)
    crumbs-IsServed [] = nil
    crumbs-IsServed (c ∷ cs) = cons tt (crumbs-IsServed cs)

    module _ (dates : Dates) (iso : ℤ → Text) (to_fixed : ℕ → ℕ → ℕ → Text) where
      listing-IsServed : (p : FilesPage) → IsServed role (listing_table dates iso to_fixed p)
      unfolding listing_table route_of
      listing-IsServed p = search (parts, tt, IsServed-if, IsServed-each) depth 30

      editor-IsServed :
          (encode : Text → Text) (id : Text) (o : Option Editing)
          → IsServed role (editor dates iso to_fixed encode id o)
      unfolding route_of
      editor-IsServed encode id none = nil
      editor-IsServed encode id (some e) = search (parts, tt) depth 30

      mkdir-IsServed :
          (id path : Text) (o : Option Text)
          → IsServed role (mkdir_modal dates iso to_fixed id path o)
      unfolding route_of
      mkdir-IsServed id path none = nil
      mkdir-IsServed id path (some name) = search (parts, tt) depth 30

      rename-IsServed :
          (id path : Text) (o : Option (DirEntry × Text))
          → IsServed role (rename_modal dates iso to_fixed id path o)
      unfolding route_of
      rename-IsServed id path none = nil
      rename-IsServed id path (some (e, name)) = search (parts, tt) depth 30

      -- All that the controls of the file manager ask for is served.
      pub files_view-IsServed :
          (encode : Text → Text) (name bytes : Text) (p : FilesPage)
          → IsServed role (files_view dates iso to_fixed encode name bytes p)
      unfolding files_view route_of
      files_view-IsServed encode name bytes p =
          search
            (
              parts,
              tt,
              crumbs-IsServed,
              listing-IsServed p,
              editor-IsServed encode,
              mkdir-IsServed p.host_id p.path p.mkdir_at,
              rename-IsServed p.host_id p.path p.rename,
            )
            depth 30
