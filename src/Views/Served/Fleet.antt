-- ===== src/Views/Served/Fleet.antt =====
-- The pages of the hosts, their groups and one host.
use bastiondeck.Prelude.{
  Bool, true, false, Option, none, some, List, [], ◌∷◌, Text, js, ◌≡◌, refl, if◌then◌else◌,
}
use bastiondeck.Auth.{Auth, can}
use bastiondeck.Api.Inventory.{Host, Credential, Group}
use bastiondeck.Server.Routes
use bastiondeck.Server.Routes.{manage_inventory, may, permissions_for, route_of}
use bastiondeck.Views.{or_nil}
use bastiondeck.Views.Groups.{group_table, rename_dialog, groups_view}
use bastiondeck.Views.Hosts.{
  host_row, host_table, import_dialog, ImportForm, HostsPage, hosts_view, create_dialog,
  result_text,
}
use bastiondeck.Views.Served.Parts.{
  IsServed, nil, cons, IsServed-each, IsServed-if, told_may, parts,
}

-- A dialog of the page of the hosts is open only for who has the button that opens it.
pub record IsOwn (s : Auth) (p : HostsPage) : Type 0 where
  pub creating : p.creating ≡ true → can s (js "manage_inventory") ≡ true
  pub importing : (f : ImportForm) → p.importing ≡ some f → can s (js "manage_inventory") ≡ true
  pub new_group : p.panel.creating ≡ true → can s (js "manage_inventory") ≡ true
  pub renaming : (g : Group) → p.panel.renaming ≡ some g → can s (js "manage_inventory") ≡ true

module _ {role : Text} where
  group_table-IsServed :
      (gs : List Group) (hs : List Host) (read_only : Bool)
      → (read_only ≡ false → may role manage_inventory ≡ true)
      → IsServed role (group_table gs hs read_only)
  unfolding route_of
  group_table-IsServed [] hs b h = cons tt nil
  group_table-IsServed (g ∷ gs) hs true h =
      IsServed-each (g ∷ gs) (λ a. search (parts, tt) depth 20)
  group_table-IsServed (g ∷ gs) hs false h =
      let may_manage = h refl in IsServed-each (g ∷ gs) (λ a. search (parts, tt) depth 20)

  rename_dialog-IsServed :
      (name : Text) (o : Option Group)
      → ((g : Group) → o ≡ some g → may role manage_inventory ≡ true)
      → IsServed role (rename_dialog name o)
  unfolding route_of
  rename_dialog-IsServed name none h = nil
  rename_dialog-IsServed name (some g) h = let may_manage = h g refl in search (parts, tt) depth 20

  result_text-IsServed : (o : Option Text) → IsServed role (result_text o)
  result_text-IsServed none = nil
  result_text-IsServed (some s) = cons tt nil

  import_dialog-IsServed :
      (p : HostsPage) (o : Option ImportForm)
      → ((f : ImportForm) → o ≡ some f → may role manage_inventory ≡ true)
      → IsServed role (import_dialog p o)
  unfolding route_of
  import_dialog-IsServed p none h = nil
  import_dialog-IsServed p (some f) h =
      let may_manage = h f refl in search (parts, tt, result_text-IsServed) depth 20

  create_dialog-IsServed :
      (p : HostsPage) → may role manage_inventory ≡ true → IsServed role (create_dialog p)
  unfolding route_of create_dialog
  create_dialog-IsServed p h = search (parts, tt) depth 40

not_shut : (b : Bool) → (if b then false else true) ≡ false → b ≡ true
not_shut true h = refl
not_shut false h = cc

module _ (role : Text) (s : Auth) (reads : may role Routes.read ≡ true)
    (told : s.permissions ≡ permissions_for role) where
  host_row-IsServed : (m : List (Text × Credential)) (h : Host) → IsServed role (host_row s m h)
  unfolding route_of
  host_row-IsServed m h =
      search (parts, tt, told_may role s Routes.exec told, told_may role s manage_inventory told)
        depth 30

  host_table-IsServed : (p : HostsPage) → IsServed role (host_table s p)
  unfolding host_table
  host_table-IsServed p = search (parts, tt, IsServed-if, IsServed-each, host_row-IsServed) depth 10

  groups-IsServed :
      (p : HostsPage) (gs : List Group) (hs : List Host) (b : Bool)
      → IsOwn s p
      → (b ≡ false → may role manage_inventory ≡ true)
      → IsServed role (groups_view gs hs b p.panel)
  unfolding groups_view route_of
  groups-IsServed p gs hs b own h =
      let on_new =
        λ (e : p.panel.creating ≡ true). told_may role s manage_inventory told (own.new_group e) in
      let on_rename = λ (g : Group) (e : p.panel.renaming ≡ some g).
        told_may role s manage_inventory told (own.renaming g e) in
      search
        (
          parts,
          tt,
          group_table-IsServed gs hs b h,
          rename_dialog-IsServed p.panel.name p.panel.renaming on_rename,
          on_new,
        )
        depth 20

  -- All that the page of the hosts asks for, on opening and by its controls, is served.
  pub hosts_view-IsServed : (p : HostsPage) → IsOwn s p → IsServed role (hosts_view s p)
  unfolding hosts_view
  hosts_view-IsServed p own =
      let manage = told_may role s manage_inventory told in
      let on_import = λ (f : ImportForm) (e : p.importing ≡ some f). manage (own.importing f e) in
      let groups =
        groups-IsServed p (or_nil p.groups.value) (or_nil p.hosts.value) _ own
          (λ h. manage (not_shut _ h)) in
      search
        (
          parts,
          tt,
          host_table-IsServed p,
          groups,
          λ (e : p.creating ≡ true). create_dialog-IsServed p (manage (own.creating e)),
          import_dialog-IsServed p p.importing on_import,
        )
        depth 20
