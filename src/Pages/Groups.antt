-- ===== src/Pages/Groups.antt =====
-- web/src/components/GroupsPanel.tsx: the groups of hosts, with their numbers of members.
pub mod Counts
use bastiondeck.Prelude.{
  ℕ, ◌+◌, Bool, false, Option, none, some, List, [], ◌∷◌, Text, js, ◌==◌, is_empty, if◌then◌else◌,
}
use bastiondeck.Api.Inventory.{Host, Group}
use bastiondeck.Hooks.{Outcome}
use bastiondeck.Toast.{success}
use bastiondeck.Endpoints.Fleet.{HostOp, host_call}
use bastiondeck.Pages.{Effect, says, reloads, attempt, attempt_only}
use bastiondeck.Pages.Wizard.{is_blank}

-- `m.set(g, (m.get(g) ?? 0) + 1)`
unfoldable pub bump : Text → List (Text × ℕ) → List (Text × ℕ)
unfolding ◌==◌
bump g [] = (g, 1) ∷ []
bump g ((k, n) ∷ m) = if k == g then (k, n + 1) ∷ m else (k, n) ∷ bump g m

-- `if (h.groupId) …`
unfoldable pub bump_group : Option Text → List (Text × ℕ) → List (Text × ℕ)
unfolding bump
bump_group none m = m
bump_group (some g) m = if is_empty g then m else bump g m

unfoldable pub counts_from : List (Text × ℕ) → List Host → List (Text × ℕ)
unfolding bump_group
counts_from m [] = m
counts_from m (h ∷ hs) = counts_from (bump_group h.group_id m) hs

unfoldable pub counts : List Host → List (Text × ℕ)
unfolding counts_from
counts hosts = counts_from [] hosts

-- `counts.get(g) ?? 0`
unfoldable pub count_of : Text → List (Text × ℕ) → ℕ
unfolding ◌==◌
count_of g [] = 0
count_of g ((k, n) ∷ m) = if k == g then n else count_of g m

pub record Panel : Type 0 where
  pub creating : Bool
  pub renaming : Option Group
  pub name : Text

-- The button "create" is disabled while the name is blank.
unfoldable pub create_group : Outcome (Unit {0}) → Panel → Panel × List Effect
create_group o p =
    if is_blank p.name
    then (p, [])
    else attempt (host_call (HostOp.create_group p.name none)) p o
        (λ _. (record p { creating = false; name = [] }, says success (js "分组已创建") ∷ reloads ∷ []))

unfoldable pub rename_group : Outcome (Unit {0}) → Panel → Panel × List Effect
rename_group o p = elim p.renaming [
  | none ↦ (p, [])
  | some g ↦
      if is_blank p.name
      then (p, [])
      else attempt (host_call (HostOp.rename_group g.id p.name)) p o
          (λ _. (record p { renaming = none }, says success (js "已重命名") ∷ reloads ∷ []))
]

-- The confirmed removal: its failure is caught here and said, so the dialog closes.
unfoldable pub remove_group : Text → Outcome (Unit {0}) → List Effect
remove_group id o =
    attempt_only (host_call (HostOp.remove_group id)) o
      (λ _. says success (js "分组已删除（主机保留）") ∷ reloads ∷ [])
