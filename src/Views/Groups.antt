-- ===== src/Views/Groups.antt =====
-- web/src/components/GroupsPanel.tsx: what the panel of the groups shows.
use bastiondeck.Prelude.{
  Bool, true, false, not, Option, none, some, List, [], ◌∷◌, ◌++◌, Text, js, length, if◌then◌else◌,
}
use bastiondeck.Prelude.Decimal.{show}
use bastiondeck.Api.Inventory.{Group, Host}
use bastiondeck.Endpoints.Fleet.{HostOp}
use bastiondeck.Endpoints.Operations.{host_op}
use bastiondeck.Pages.Groups.{Panel, counts, count_of}
use bastiondeck.Pages.Wizard.{is_blank}
use bastiondeck.Views.{Node, text, button, input, row, dialog, only_if, each}

-- The button of a new group empties the name.
unfoldable start_group : Panel → Panel
start_group p = record p { name = []; creating = true }

-- The button that renames a group starts from its name.
unfoldable start_rename : Group → Panel → Panel
start_rename g p = record p { renaming = some g; name = g.name }

abbrev group_row : List (Text × Prim.Native.Nat.ℕ) → Bool → Group → List Node
group_row m read_only g =
    row g.id false
    ∷ text g.name
    ∷ text (show (count_of g.id m))
    ∷ (if read_only
        then []
        else button (js "重命名") true []
          ∷ button (js "删除") true (host_op (HostOp.remove_group g.id) ∷ [])
          ∷ [])

abbrev pub group_table : List Group → List Host → Bool → List Node
group_table [] hosts read_only = text (js "暂无分组") ∷ []
group_table (g ∷ gs) hosts read_only = each (group_row (counts hosts) read_only) (g ∷ gs)

abbrev new_group_dialog : Panel → List Node
new_group_dialog p =
    dialog (js "新建分组")
    ∷ input (js "分组名，如 prod-web") p.name
    ∷ button (js "取消") true []
    ∷ button (js "创建") (not (is_blank p.name)) (host_op (HostOp.create_group p.name none) ∷ [])
    ∷ []

abbrev pub rename_dialog : Text → Option Group → List Node
rename_dialog name none = []
rename_dialog name (some g) =
    dialog (js "重命名分组")
    ∷ input [] name
    ∷ button (js "取消") true []
    ∷ button (js "保存") (not (is_blank name)) (host_op (HostOp.rename_group g.id name) ∷ [])
    ∷ []

unfoldable pub groups_view : List Group → List Host → Bool → Panel → List Node
groups_view groups hosts read_only p =
    text (js "分组（" ++ show (length groups) ++ js "）")
      ∷ only_if (not read_only) (button (js "+ 新建分组") true [] ∷ [])
    ++ group_table groups hosts read_only
    ++ only_if p.creating (new_group_dialog p)
    ++ rename_dialog p.name p.renaming
