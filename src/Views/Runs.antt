-- ===== src/Views/Runs.antt =====
-- web/src/pages/Runs.tsx and web/src/pages/RunDetail.tsx: what the list of runs and the page of one
-- run read and show.
use bastiondeck.Prelude.{
  ◌+◌, Bool, true, false, Option, none, some, List, [], ◌∷◌, ◌++◌, Text, js, ◌==◌, find,
  if◌then◌else◌,
}
use bastiondeck.Prelude.Decimal.{show}
use bastiondeck.Prelude.Ints.{ℤ, pos, negsuc}
use bastiondeck.Api.Inventory.{Host}
use bastiondeck.Api.Activity.{Run, RunSummary, RunTarget}
use bastiondeck.Format.{short_id}
use bastiondeck.Hooks.Async.{View}
use bastiondeck.Endpoints.Operations.{Operation, host_op, run_op}
use bastiondeck.Endpoints.Fleet.{HostOp}
use bastiondeck.Endpoints.Work.{RunOp}
use bastiondeck.Pages.Runs.{listed, may_cancel, active_target, may_retry}
use bastiondeck.Views.{
  Node, text, link, button, row, only_if, each, Dates, time_of, age_at, status_badge, loading,
  empty, error_box, page_title, or_else, or_nil,
}

abbrev filters : List Text
filters =
    [] ∷ js "running" ∷ js "success" ∷ js "failed" ∷ js "lost" ∷ js "timeout" ∷ js "cancelled" ∷ []

abbrev filter_label : Text → Text
filter_label [] = js "全部"
filter_label (c ∷ s) = c ∷ s

abbrev pub runs_loads : List Operation
runs_loads = run_op (RunOp.list 100 none) ∷ []

abbrev pub run_row : Dates → Run → List Node
run_row dates r =
    row r.id false
    ∷ link (js "/runs/" ++ r.id) (short_id (some r.id) 10)
    ∷ status_badge r.status none
    ∷ text (show r.summary.total)
    ∷ text (
        show r.summary.success
        ++ js "/"
        ++ show r.summary.failed
        ++ js "/"
        ++ show (r.summary.lost + r.summary.timeout))
    ∷ text r.trigger
    ∷ text (age_at dates (or_else r.started_at (some r.created_at)))
    ∷ only_if (may_cancel r) (button (js "取消") true (run_op (RunOp.cancel r.id) ∷ []) ∷ [])

abbrev pub listed_rows : Dates → List Run → List Node
listed_rows dates [] = empty (js "暂无执行记录")
listed_rows dates (r ∷ rs) = each (run_row dates) (r ∷ rs)

-- The list of runs, for a filter
unfoldable pub runs_view : Dates → Text → View (List Run) → List Node
unfolding listed may_cancel
runs_view dates wanted v =
    text (js "任务与执行") ∷ error_box v.error
    ++ page_title (js "执行记录") (each (λ f. button (filter_label f) true [] ∷ []) filters)
    ++ (if v.loading then loading else listed_rows dates (listed wanted (or_nil v.value)))

pub record RunAnswer : Type 0 where
  pub run : Run
  pub live : Bool

pub record RunDetail : Type 0 where
  pub run : View RunAnswer
  pub hosts : View (List Host)
  pub selected : Option Text
  pub stream : Text
  pub output : Text

abbrev targets : RunAnswer → List RunTarget
targets a = or_nil a.run.targets

abbrev active_of : RunDetail → Option RunAnswer → Option Text
active_of p none = active_target p.selected []
active_of p (some a) = active_target p.selected (targets a)

-- What the output is asked for, once a target is active
abbrev pub output_load : Text → RunDetail → Option Text → List Operation
output_load id p none = []
output_load id p (some []) = []
output_load id p (some (c ∷ t)) = run_op (RunOp.output id (c ∷ t) p.stream 0) ∷ []

unfoldable pub run_loads : Text → RunDetail → List Operation
unfolding active_target
run_loads id p =
    run_op (RunOp.get id) ∷ host_op (HostOp.list none) ∷ output_load id p (active_of p p.run.value)

abbrev pub name_or_id : Text → Option Host → Text
name_or_id id none = short_id (some id) 10
name_or_id id (some h) = h.name

-- `hostName`
unfoldable pub host_name : View (List Host) → Text → Text
host_name v id = name_or_id id (find (λ (h : Host). h.id == id) (or_nil v.value))

abbrev pub code_or_dash : Option ℤ → Text
code_or_dash none = js "—"
code_or_dash (some (pos n)) = show n
code_or_dash (some (negsuc n)) = js "-" ++ show (n + 1)

abbrev is_active : Option Text → Text → Bool
is_active none id = false
is_active (some a) id = id == a

abbrev target_row : RunDetail → Option Text → RunTarget → List Node
target_row p active t =
    row t.id (is_active active t.id)
    ∷ text (host_name p.hosts t.host_id)
    ∷ status_badge t.status none
    ∷ text (code_or_dash t.exit_code)
    ∷ []

abbrev tally : RunSummary → Text
tally s =
    js "共 "
    ++ show s.total
    ++ js "，成功 "
    ++ show s.success
    ++ js "，失败 "
    ++ show s.failed
    ++ js "，超时 "
    ++ show s.timeout
    ++ js "，失联 "
    ++ show s.lost
    ++ js "，取消 "
    ++ show s.cancelled

abbrev pub run_buttons : Text → RunAnswer → List Node
run_buttons id a =
    only_if a.live (button (js "急停") true (run_op (RunOp.cancel id) ∷ []) ∷ [])
    ++ only_if (may_retry a.live a.run.summary)
        (button (js "仅重试失败/失联") true (run_op (RunOp.retry id) ∷ []) ∷ [])

abbrev code_text : Option Text → Text
code_text none = []
code_text (some c) = c

abbrev pub error_line : Option Text → Option Text → List Node
error_line code none = []
error_line code (some []) = []
error_line code (some (c ∷ s)) = text (code_text code ++ js ": " ++ c ∷ s) ∷ []

abbrev pub error_of : Option RunTarget → List Node
error_of none = []
error_of (some t) = error_line t.error_code t.error_text

-- The error of the active target
abbrev active_error : Option Text → List RunTarget → List Node
active_error active ts = error_of (find (λ (t : RunTarget). is_active active t.id) ts)

abbrev output_or : Text → Text
output_or [] = js "（暂无输出）"
output_or (c ∷ s) = c ∷ s

abbrev pub run_shown : Dates → Text → RunDetail → RunAnswer → List Node
run_shown dates id p a =
    link (js "/runs") (js "执行")
      ∷ text (js " / " ++ short_id (some id) 16)
      ∷ status_badge a.run.status none
      ∷ error_box p.run.error
    ++ text (time_of dates a.run.started_at ++ js " → " ++ time_of dates a.run.ended_at)
      ∷ text (tally a.run.summary)
      ∷ run_buttons id a
    ++ each (target_row p (active_target p.selected (targets a))) (targets a)
    ++ button (js "stdout") true []
      ∷ button (js "stderr") true []
      ∷ active_error (active_target p.selected (targets a)) (targets a)
    ++ text (output_or p.output) ∷ []

abbrev no_run : Option Text → Option Text
no_run none = some (js "运行不存在")
no_run (some m) = some m

abbrev pub shown_or : Dates → Text → RunDetail → Option RunAnswer → List Node
shown_or dates id p none = if p.run.loading then loading else error_box (no_run p.run.error)
shown_or dates id p (some a) = run_shown dates id p a

-- The page of a run
unfoldable pub run_view : Dates → Text → RunDetail → List Node
unfolding active_target may_retry host_name
run_view dates id p = shown_or dates id p p.run.value
