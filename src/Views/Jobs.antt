-- ===== src/Views/Jobs.antt =====
-- web/src/pages/Jobs.tsx: what the page of the scheduled jobs reads and shows, and the inputs of its
-- form.
use bastiondeck.Prelude.{
  ℕ, Bool, true, false, Option, none, some, List, [], ◌∷◌, ◌++◌, Text, js, length, map, is_empty,
  if◌then◌else◌,
}
use bastiondeck.Prelude.Decimal.{show}
use bastiondeck.Api.Inventory.{Host}
use bastiondeck.Api.Activity.{Job, Snippet}
use bastiondeck.Hooks.Async.{View}
use bastiondeck.Auth.{Auth, can}
use bastiondeck.Endpoints.Operations.{Operation, host_op, exec_op, job_op, snippet_op}
use bastiondeck.Endpoints.Fleet.{HostOp}
use bastiondeck.Endpoints.Work.{ExecOp, JobOp, SnippetOp}
use bastiondeck.Pages.Jobs.{JobDraft, save_job_op}
use bastiondeck.Views.{
  Node, text, button, input, tick, choice, choices, row, dialog, only_if, each, Dates, age_at,
  loading, empty, error_box, page_title, or_nil,
}

pub record JobsPage : Type 0 where
  pub jobs : View (List Job)
  pub hosts : View (List Host)
  pub snippets : View (List Snippet)
  pub editing : Option JobDraft

abbrev pub jobs_loads : List Operation
jobs_loads = job_op JobOp.list ∷ host_op (HostOp.list none) ∷ snippet_op SnippetOp.list ∷ []

abbrev or_blank : Option Text → Text
or_blank none = []
or_blank (some s) = s

abbrev job_row : Dates → Auth → Job → List Node
job_row dates s j =
    row j.id false
    ∷ text j.name
    ∷ text (or_blank j.schedule_expr)
    ∷ text j.command
    ∷ text (show (length j.target_ids))
    ∷ text (if j.enabled then js "✓" else js "—")
    ∷ text (age_at dates j.last_run_at ++ js " / " ++ age_at dates j.next_run_at)
    ∷ only_if (can s (js "exec")) (
        button (js "立即跑") true (exec_op (ExecOp.run_job j.id) ∷ [])
        ∷ button (js "编辑") true []
        ∷ button (js "删") true (job_op (JobOp.remove j.id) ∷ [])
        ∷ [])

abbrev is_no_job : Option (List Job) → Bool
is_no_job none = false
is_no_job (some []) = true
is_no_job (some (j ∷ js_)) = false

unfoldable pub job_table : Dates → Auth → View (List Job) → List Node
job_table dates s v =
    if v.loading
    then loading
    else if is_no_job v.value
    then empty (js "暂无计划任务")
    else each (job_row dates s) (or_nil v.value)

abbrev title_of : Option Job → Text
title_of none = js "新建计划任务"
title_of (some j) = if is_empty j.id then js "新建计划任务" else js "编辑计划任务"

-- `seconds` is the text of a thousandth of its argument.
abbrev pub job_dialog : (ℕ → Text) → JobsPage → Option JobDraft → List Node
job_dialog seconds p none = []
job_dialog seconds p (some d) =
    dialog (title_of d.stored)
    ∷ input (js "名称") d.fields.name
    ∷ choice (js "命令片段") (or_blank d.fields.snippet_id)
        (([], js "自定义命令") ∷ map (λ (s : Snippet). (s.id, s.title)) (or_nil p.snippets.value)) []
    ∷ input (js "命令") d.fields.command
    ∷ input (js "Cron 表达式（分 时 日 月 周）") (or_blank d.fields.schedule_expr)
    ∷ input (js "超时（秒）") (seconds d.fields.timeout_ms)
    ∷ input (js "并发度") (show d.fields.concurrency)
    ∷ choices (js "目标主机（按住 Ctrl 多选）") d.fields.target_ids
        (map (λ (h : Host). (h.id, h.name ++ js "（" ++ h.address ++ js "）")) (or_nil p.hosts.value))
    ∷ tick d.fields.enabled
    ∷ button (js "取消") true []
    ∷ button (js "保存") true (job_op (save_job_op d d.stored) ∷ [])
    ∷ []

unfoldable pub jobs_view : Dates → (ℕ → Text) → Auth → JobsPage → List Node
jobs_view dates seconds s p =
    text (js "计划任务") ∷ error_box p.jobs.error
    ++ page_title (js "Cron 计划任务（cron-lite，5 段表达式）")
        (only_if (can s (js "exec")) (button (js "+ 新建计划任务") true [] ∷ []))
    ++ job_table dates s p.jobs
    ++ job_dialog seconds p p.editing

-- The inputs of the form
pub data JobEdit : Type 0 where
  name command schedule : Text → JobEdit
  concurrency : ℕ → JobEdit
  targets : List Text → JobEdit
  enabled : Bool → JobEdit

unfoldable edit_job : JobEdit → JobDraft → JobDraft
edit_job (name v) d = record d { fields = record d.fields { name = v } }
edit_job (command v) d = record d { fields = record d.fields { command = v } }
edit_job (schedule v) d = record d { fields = record d.fields { schedule_expr = some v } }
edit_job (concurrency n) d = record d { fields = record d.fields { concurrency = n } }
edit_job (targets ids) d = record d { fields = record d.fields { target_ids = ids } }
edit_job (enabled b) d = record d { fields = record d.fields { enabled = b } }
