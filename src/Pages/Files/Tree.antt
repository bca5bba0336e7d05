-- ===== src/Pages/Files/Tree.antt =====
-- web/src/pages/Files.tsx: making, renaming and deleting files, and the path shown above the list.
use bastiondeck.Prelude.{
  ℕ, suc, Bool, true, false, Option, none, some, List, [], ◌∷◌, ◌++◌, Text, js, take, is_empty,
  if◌then◌else◌,
}
use bastiondeck.Api.Inventory.{DirEntry}
use bastiondeck.Hooks.{Outcome}
use bastiondeck.Toast.{success}
use bastiondeck.Endpoints.Fleet.{FsOp, fs_call}
use bastiondeck.Pages.{Effect, says, reloads, attempt, confirmed}
use bastiondeck.Pages.Files.{join, go, crumbs, slashed}

-- The button of the dialog is disabled while the name is empty; `true` while the dialog is open.
unfoldable make_dir : Text → Text → Text → Outcome (Unit {0}) → Bool × List Effect
unfolding join
make_dir host_id path name o =
    if is_empty name
    then (true, [])
    else attempt (fs_call (FsOp.mkdir host_id (join path name))) true o
        (λ _. (false, says success (js "已创建") ∷ reloads ∷ []))

unfoldable rename_entry :
    Text → Text → Text → Outcome (Unit {0}) → Option DirEntry → Option DirEntry × List Effect
unfolding join
rename_entry host_id path to o none = (none, [])
rename_entry host_id path to o (some e) =
    attempt (fs_call (FsOp.rename host_id (join path e.name) (join path to))) (some e) o
      (λ _. (none, says success (js "已重命名") ∷ reloads ∷ []))

-- The confirmed deletion
unfoldable remove_entry : Text → Text → DirEntry → Outcome (Unit {0}) → List Effect
unfolding join
remove_entry host_id path e o =
    confirmed (fs_call (FsOp.remove host_id (join path e.name))) o
      (λ _. reloads ∷ says success (js "已删除") ∷ [])

-- A click on an entry of the list
unfoldable enter : Text → DirEntry → Text
unfolding go
enter path e = if e.is_dir then go path e.name else path

-- Where the crumb of an index leads
unfoldable pub crumb_path : ℕ → Text → Text
unfolding crumbs slashed
crumb_path i path = js "/" ++ slashed (take (suc i) (crumbs path))
