-- ===== src/Pages/Wizard.antt =====
-- web/src/pages/ExecWizard.tsx: the batch execution wizard, from the choice of targets to the run.
-- A timeout is a whole number.
pub mod Launch
pub mod Variables
use Prim.Native.Nat.{zero, suc}
use bastiondeck.Prelude.{
  ℕ, Bool, true, false, Option, none, some, List, [], ◌∷◌, ◌++◌, Text, js, ◌==◌, contains, add,
  delete, all, is_empty, length, map, find, eqb, ltb, if◌then◌else◌,
}
use bastiondeck.Prelude.Ints.{ℤ, pos, negsuc}
use bastiondeck.Prelude.Decimal.{show}
use bastiondeck.Prelude.Json.{Json, num, str, arr, obj, Items, nil, cons, Fields, end, field}
use bastiondeck.Api.Inventory.{Host}
use bastiondeck.Api.Activity.{Snippet, Run, RunTarget}
use bastiondeck.Hooks.{Outcome, ok, fail}
use bastiondeck.Toast.{ToastKind, success, error}
use bastiondeck.Endpoints.Calls.{Call, json, text_of}
use bastiondeck.Endpoints.Work.{ExecOp, exec_call, RunOp, run_call}
use bastiondeck.Selection.{SelectionMode, SelectionSpec, select_hosts, dedupe_ids}
use bastiondeck.Template.{is_space, Vars, with_var, required_variables, render_template}
use bastiondeck.Pages.{Effect, calls, says}

pub record Wizard : Type 0 where
  pub step : ℕ
  pub spec : SelectionSpec
  pub snippet_id : Text
  pub command : Text
  pub vars : Vars
  pub timeout_sec : ℤ
  pub run_id : Option Text
  pub targets : List RunTarget

-- `allHosts` and `snippets.data?.snippets`, as the page has loaded them.
pub record Loaded : Type 0 where
  pub hosts : List Host
  pub snippets : Option (List Snippet)

abbrev pub find_snippet : Text → Option (List Snippet) → Option Snippet
find_snippet id none = none
find_snippet id (some ss) = find (λ (s : Snippet). s.id == id) ss

abbrev body_or : Text → Option Snippet → Text
body_or command none = command
body_or command (some s) = s.body

unfoldable pub var_names : Loaded → Wizard → List Text
var_names d w = required_variables (
    if is_empty w.snippet_id
    then w.command
    else body_or w.command (find_snippet w.snippet_id d.snippets))

abbrev loaded : Wizard → Option Snippet → Wizard
loaded w none = w
loaded w (some s) = record w { command = s.body }

-- The choice of a snippet
unfoldable pub pick_snippet : Loaded → Text → Wizard → Wizard
pick_snippet d id w = loaded (record w { snippet_id = id }) (find_snippet id d.snippets)

unfoldable pub toggle : Text → Wizard → Wizard
toggle id w = record w {
  spec = record w.spec {
    picked = if contains id w.spec.picked then delete id w.spec.picked else add id w.spec.picked;
  };
}

-- The input of a variable is there for each of `varNames`.
unfoldable pub fill_in : Loaded → Text → Text → Wizard → Wizard
fill_in d n v w = if contains n (var_names d w) then record w { vars = with_var n v w.vars } else w

abbrev pub chosen : Loaded → Wizard → List Host
chosen d w = select_hosts d.hosts w.spec

-- `!command.trim()`
abbrev pub is_blank : Text → Bool
is_blank s = all is_space s

-- `!timeoutSec || timeoutSec < 1`
abbrev pub is_no_timeout : ℤ → Bool
is_no_timeout (pos zero) = true
is_no_timeout (pos (suc n)) = false
is_no_timeout (negsuc n) = true

unfoldable pub items_of : List Text → Items
items_of [] = nil
items_of (s ∷ ss) = cons (str s) (items_of ss)

-- A variable whose name is a whole number would come first; the order does not matter to the server.
unfoldable pub vars_of : Vars → Fields
vars_of [] = end
vars_of ((k, v) ∷ vars) = field k (str v) (vars_of vars)

abbrev optional : Text → Option Json
optional [] = none
optional (c ∷ s) = some (str (c ∷ s))

unfoldable pub target_ids : Loaded → Wizard → List Text
target_ids d w = dedupe_ids (map (λ h. h.id) (chosen d w))

abbrev pub wizard_op : Loaded → Wizard → ExecOp
wizard_op d w =
    (ExecOp.run (
      json (
        (js "command", some (str w.command))
        ∷ (js "targetIds", some (arr (items_of (target_ids d w))))
        ∷ (js "snippetId", optional w.snippet_id)
        ∷ (js "timeoutSec", some (num w.timeout_sec))
        ∷ (js "vars", some (obj (vars_of w.vars)))
        ∷ [])))

abbrev pub exec_request : Loaded → Wizard → Call
exec_request d w = exec_call (wizard_op d w)

-- After the `await`
abbrev pub launched : Loaded → Wizard → Outcome Text → Wizard × List Effect
launched d w (fail m) = (w, calls (exec_request d w) ∷ says error m ∷ [])
launched d w (ok id) = (
  record w { run_id = some id; step = 3; targets = [] },
  calls (exec_request d w)
      ∷ says success (js "已扇出到 " ++ show (length (chosen d w)) ++ js " 台主机")
      ∷ calls (run_call (RunOp.get id))
      ∷ [],
)

-- `xs.join(', ')`
unfoldable pub commas : List Text → Text
commas [] = []
commas (s ∷ []) = s
commas (s ∷ t ∷ ss) = s ++ js ", " ++ commas (t ∷ ss)

abbrev pub missing_of : Wizard → List Text
missing_of w = (render_template w.command w.vars).missing

unfoldable pub launch : Loaded → Outcome Text → Wizard → Wizard × List Effect
unfolding target_ids
launch d o w =
    if is_blank w.command
    then (w, says error (js "命令不能为空") ∷ [])
    else if eqb (length (chosen d w)) 0
    then (w, says error (js "没有选中任何目标") ∷ [])
    else if is_no_timeout w.timeout_sec
    then (w, says error (js "超时需为正整数（秒）") ∷ [])
    else if ltb 0 (length (missing_of w))
    then (w, says error (js "请先填写变量：" ++ commas (missing_of w)) ∷ [])
    else launched d w o

-- `r.run.targets ?? []`
abbrev targets_of : Option (List RunTarget) → List RunTarget
targets_of none = []
targets_of (some ts) = ts

-- `refreshRun`, when its call for a run has settled: an error is passed over in silence.
unfoldable refresh_run : Outcome Run → Wizard → Wizard
refresh_run (ok r) w = record w { targets = targets_of r.targets }
refresh_run (fail m) w = w

abbrev watched : Option Text → Option Text
watched none = none
watched (some []) = none
watched (some (c ∷ id)) = some (c ∷ id)

-- An event of the stream, with the run that it names: the run is asked for again if it is watched.
unfoldable on_event : Option Text → Wizard → List Effect
unfolding ◌==◌
on_event none w = []
on_event (some r) w = elim (watched w.run_id) [
  | none ↦ []
  | some id ↦ if r == id then calls (run_call (RunOp.get id)) ∷ [] else []
]
