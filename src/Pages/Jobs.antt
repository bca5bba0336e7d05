-- ===== src/Pages/Jobs.antt =====
-- web/src/pages/Jobs.tsx: the form for a scheduled job, and running one at once. The timeout and the
-- concurrency are whole numbers.
use bastiondeck.Prelude.{
  ℕ, ◌*◌, Bool, true, ◌||◌, Option, none, some, List, [], ◌∷◌, ◌++◌, Text, js, is_empty,
  if◌then◌else◌,
}
use bastiondeck.Prelude.Ints.{pos}
use bastiondeck.Prelude.Json.{Json, bool, num, str, arr}
use bastiondeck.Api.Activity.{Job, JobKind, adhoc, scheduled, Snippet}
use bastiondeck.Hooks.{Outcome}
use bastiondeck.Toast.{success, error}
use bastiondeck.Endpoints.Calls.{Call, json, text_of}
use bastiondeck.Endpoints.Work.{ExecOp, exec_call, JobOp, job_call}
use bastiondeck.Format.{short_id}
use bastiondeck.Pages.{Effect, says, reloads, attempt, attempt_only, confirmed}
use bastiondeck.Pages.Wizard.{is_blank, items_of, find_snippet}

-- What the form changes.
pub record JobFields : Type 0 where
  pub kind : JobKind
  pub name : Text
  pub command : Text
  pub target_ids : List Text
  pub snippet_id : Option Text
  pub schedule_expr : Option Text
  pub enabled : Bool
  pub timeout_ms : ℕ
  pub concurrency : ℕ

-- `editing`: a new draft has these fields alone, a stored job its other fields too.
pub record JobDraft : Type 0 where
  pub fields : JobFields
  open fields use *
  pub stored : Option Job

abbrev pub new_job : JobDraft
new_job = record {
  fields = record {
    kind = scheduled;
    name = [];
    command = [];
    target_ids = [];
    snippet_id = none;
    schedule_expr = some (js "*/5 * * * *");
    enabled = true;
    timeout_ms = 60000;
    concurrency = 4;
  };
  stored = none;
}

abbrev job_draft_of : Job → JobDraft
job_draft_of j = record {
  fields = record {
    kind = j.kind;
    name = j.name;
    command = j.command;
    target_ids = j.target_ids;
    snippet_id = j.snippet_id;
    schedule_expr = j.schedule_expr;
    enabled = j.enabled;
    timeout_ms = j.timeout_ms;
    concurrency = j.concurrency;
  };
  stored = some j;
}

abbrev kind_name : JobKind → Text
kind_name adhoc = js "adhoc"
kind_name scheduled = js "scheduled"

abbrev stored_json : Option Job → List (Text × Option Json)
stored_json none = []
stored_json (some j) =
    (js "id", some (str j.id))
    ∷ (js "createdBy", text_of j.created_by)
    ∷ (js "lastRunAt", text_of j.last_run_at)
    ∷ (js "nextRunAt", text_of j.next_run_at)
    ∷ (js "createdAt", some (str j.created_at))
    ∷ (js "updatedAt", some (str j.updated_at))
    ∷ []

abbrev job_json : JobDraft → Json
job_json d = json (
    (js "kind", some (str (kind_name d.fields.kind)))
    ∷ (js "name", some (str d.fields.name))
    ∷ (js "command", some (str d.fields.command))
    ∷ (js "targetIds", some (arr (items_of d.fields.target_ids)))
    ∷ (js "snippetId", text_of d.fields.snippet_id)
    ∷ (js "scheduleExpr", text_of d.fields.schedule_expr)
    ∷ (js "enabled", some (bool d.fields.enabled))
    ∷ (js "timeoutMs", some (num (pos d.fields.timeout_ms)))
    ∷ (js "concurrency", some (num (pos d.fields.concurrency)))
    ∷ stored_json d.stored)

-- `if (editing.id) update else create`
abbrev pub save_job_op : JobDraft → Option Job → JobOp
save_job_op d none = JobOp.create (job_json d)
save_job_op d (some j) =
    if is_empty j.id then JobOp.create (job_json d) else JobOp.update j.id (job_json d)

abbrev pub save_job_call : JobDraft → Option Job → Call
save_job_call d stored = job_call (save_job_op d stored)

unfoldable pub save_job : Outcome (Unit {0}) → Option JobDraft → Option JobDraft × List Effect
save_job o none = (none, [])
save_job o (some d) =
    if is_blank d.fields.name || is_blank d.fields.command
    then (some d, says error (js "名称和命令不能为空") ∷ [])
    else attempt (save_job_call d d.stored) (some d) o
        (λ _. (none, says success (js "已保存") ∷ reloads ∷ []))

unfoldable run_now : Text → Outcome Text → List Effect
unfolding short_id
run_now id o =
    attempt_only (exec_call (ExecOp.run_job id)) o
      (λ run_id. says success (js "已手动触发 " ++ short_id (some run_id) 10) ∷ [])

-- The confirmed removal of a job
unfoldable remove_job : Text → Outcome (Unit {0}) → List Effect
remove_job id o = confirmed (job_call (JobOp.remove id)) o (λ _. reloads ∷ [])

abbrev body_from : Option Snippet → Text → Text
body_from none command = command
body_from (some s) command = s.body

-- `e.target.value || undefined`
abbrev or_undefined : Text → Option Text
or_undefined [] = none
or_undefined (c ∷ s) = some (c ∷ s)

-- The choice of a snippet
unfoldable pick_command : Option (List Snippet) → Text → JobDraft → JobDraft
pick_command snippets id d = record d {
  fields = record d.fields {
    snippet_id = or_undefined id;
    command = body_from (find_snippet id snippets) d.fields.command;
  };
}

-- The input of the timeout, in seconds
unfoldable set_timeout : ℕ → JobDraft → JobDraft
set_timeout sec d = record d { fields = record d.fields { timeout_ms = sec * 1000 } }
