-- ===== src/Views/Wizard.antt =====
-- web/src/pages/ExecWizard.tsx: what the wizard reads and shows, and its inputs.
pub mod Ticks
use bastiondeck.Prelude.{
  ℕ, Bool, true, false, ◌&&◌, ◌||◌, not, Option, none, some, List, [], ◌∷◌, ◌++◌, Text, js, ◌==◌,
  any, map, length, eqb, ltb, find, is_empty, if◌then◌else◌,
}
use bastiondeck.Prelude.Decimal.{show}
use bastiondeck.Prelude.Ints.{ℤ}
use bastiondeck.Prelude.Maps
use bastiondeck.Api.Inventory.{Host, Group}
use bastiondeck.Api.Activity.{Snippet, RunTarget}
use bastiondeck.Format.{short_id, join}
use bastiondeck.Hooks.Async.{View}
use bastiondeck.Endpoints.Operations.{Operation, host_op, exec_op, run_op, snippet_op}
use bastiondeck.Endpoints.Fleet.{HostOp}
use bastiondeck.Endpoints.Work.{RunOp, SnippetOp}
use bastiondeck.Selection.{
  SelectionMode, all, pick, group, tag, select_hosts, collect_tags, tags_of,
}
use bastiondeck.Template.{Vars, lookup}
use bastiondeck.Pages.Wizard.{Wizard, Loaded, chosen, var_names, wizard_op}
use bastiondeck.Views.{
  Node, text, button, input, tick, choice, row, feed, only_if, each, status_badge, error_box,
  page_title, or_nil,
}
use bastiondeck.Views.Hosts.{endpoint, number_value}
use bastiondeck.Views.Runs.{code_or_dash, name_or_id}

pub record Sources : Type 0 where
  pub hosts : View (List Host)
  pub groups : View (List Group)
  pub snippets : View (List Snippet)

-- What the handlers of the wizard use of them
abbrev loaded_of : Sources → Loaded
loaded_of d = record { hosts = or_nil d.hosts.value; snippets = d.snippets.value }

abbrev pub wizard_loads : List Operation
wizard_loads = host_op (HostOp.list none) ∷ host_op HostOp.groups ∷ snippet_op SnippetOp.list ∷ []

abbrev add_names : List (Text × Text) → List Group → List (Text × Text)
add_names m [] = m
add_names m (g ∷ gs) = add_names (Maps.set g.id g.name m) gs

-- `groupName`
abbrev group_names : Sources → List (Text × Text)
group_names d = add_names [] (or_nil d.groups.value)

abbrev name_found : Text → Option Text → Text
name_found id none = id
name_found id (some name) = name

-- The cell of the group
abbrev group_cell : List (Text × Text) → Option Text → Text
group_cell m none = js "—"
group_cell m (some []) = js "—"
group_cell m (some (c ∷ id)) = name_found (c ∷ id) (Maps.get (c ∷ id) m)

-- The steps at the top; a click on one goes to it.
abbrev steps : List (ℕ × Text)
steps = (1, js "1 选择目标") ∷ (2, js "2 编写命令") ∷ (3, js "3 实时观察") ∷ []

unfoldable go_to : ℕ → Wizard → Wizard
go_to n w = record w { step = n }

abbrev modes : List (SelectionMode × Text)
modes = (all, js "全部主机") ∷ (pick, js "手动勾选") ∷ (group, js "按分组") ∷ (tag, js "按标签") ∷ []

unfoldable set_mode : SelectionMode → Wizard → Wizard
set_mode m w = record w { spec = record w.spec { mode = m } }

unfoldable set_group : Text → Wizard → Wizard
set_group id w = record w { spec = record w.spec { group_id = id } }

unfoldable set_tag : Text → Wizard → Wizard
set_tag t w = record w { spec = record w.spec { tag = t } }

unfoldable set_command : Text → Wizard → Wizard
set_command s w = record w { command = s }

unfoldable set_timeout : ℤ → Wizard → Wizard
set_timeout n w = record w { timeout_sec = n }

-- The list beside the modes
abbrev pub mode_choice : Sources → Wizard → SelectionMode → List Node
mode_choice d w all = []
mode_choice d w pick = []
mode_choice d w group =
    choice [] w.spec.group_id
      (([], js "选择分组") ∷ map (λ (g : Group). (g.id, g.name)) (or_nil d.groups.value)) []
    ∷ []
mode_choice d w tag =
    choice [] w.spec.tag
      (([], js "选择标签") ∷ map (λ (t : Text). (t, t)) (collect_tags (or_nil d.hosts.value))) []
    ∷ []

-- `selectedHosts.some((x) => x.id === h.id)`
unfoldable pub hit : List Host → Host → Bool
unfolding ◌==◌
hit selected h = any (λ (x : Host). x.id == h.id) selected

abbrev host_row : List (Text × Text) → List Host → Host → List Node
host_row m selected h =
    row h.id false
    ∷ tick (hit selected h)
    ∷ text h.name
    ∷ text (endpoint h.address h.port)
    ∷ text (group_cell m h.group_id)
    ∷ text (join (js ", ") (tags_of h))
    ∷ []

abbrev count : Sources → Wizard → Text
count d w = show (length (chosen (loaded_of d) w))

unfoldable pub pick_step : Sources → Wizard → List Node
unfolding hit Maps.set Maps.get
pick_step d w =
    text (js "目标选择（当前命中 " ++ count d w ++ js " 台）")
      ∷ each (λ (m : SelectionMode × Text). button m.1 true [] ∷ []) modes
    ++ mode_choice d w w.spec.mode
    ++ each (host_row (group_names d) (chosen (loaded_of d) w)) (or_nil d.hosts.value)
    ++ button (js "下一步：" ++ count d w ++ js " 台") (not (eqb (length (chosen (loaded_of d) w)) 0)) []
      ∷ []

abbrev value_or : Option Text → Text
value_or none = []
value_or (some v) = v

abbrev var_input : Vars → Text → List Node
var_input vars n = input n (value_or (lookup n vars)) ∷ []

unfoldable pub command_step : Sources → Wizard → List Node
unfolding var_names lookup
command_step d w =
    text (js "命令编写")
      ∷ choice (js "从片段载入") w.snippet_id
          (([], js "不使用片段，手写命令") ∷ map (λ (s : Snippet). (s.id, s.title)) (or_nil d.snippets.value))
          []
      ∷ input (js "命令（${变量} 会在下方显式填值，绝不做隐式拼接）") w.command
      ∷ each (var_input w.vars) (var_names (loaded_of d) w)
    ++ input (js "单目标超时（秒）") (number_value (some w.timeout_sec))
      ∷ button (js "上一步") true []
      ∷ button (js "在 " ++ count d w ++ js " 台执行") true (exec_op (wizard_op (loaded_of d) w) ∷ [])
      ∷ []

abbrev target_row : Sources → RunTarget → List Node
target_row d t =
    row t.id false
    ∷ text (name_or_id t.host_id (find (λ (h : Host). h.id == t.host_id) (or_nil d.hosts.value)))
    ∷ status_badge t.status none
    ∷ text (code_or_dash t.exit_code)
    ∷ text (value_or t.stdout_preview)
    ∷ []

abbrev pub target_rows : Sources → List RunTarget → List Node
target_rows d [] = text (js "调度中…") ∷ []
target_rows d (t ∷ ts) = each (target_row d) (t ∷ ts)

abbrev pub watch_of : Sources → Wizard → Option Text → List Node
watch_of d w none = []
watch_of d w (some []) = []
watch_of d w (some (c ∷ id)) =
    text (js "运行 " ++ short_id (some (c ∷ id)) 18)
      ∷ button (js "刷新") true (run_op (RunOp.get (c ∷ id)) ∷ [])
      ∷ button (js "进入详情") true []
      ∷ target_rows d w.targets
    ++ feed ∷ []

unfoldable pub wizard_view : Sources → Wizard → List Node
wizard_view d w =
    text (js "批量执行向导") ∷ error_box d.hosts.error
    ++ each (λ (n : ℕ × Text). button n.1 true [] ∷ []) steps
    ++ only_if (eqb w.step 1) (pick_step d w)
    ++ only_if (eqb w.step 2) (command_step d w)
    ++ only_if (eqb w.step 3) (watch_of d w w.run_id)
