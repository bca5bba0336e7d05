-- ===== src/Endpoints/Work.antt =====
-- web/src/api/endpoints.ts: the calls for runs, jobs, snippets and the audit log.
use bastiondeck.Prelude.{ℕ, Option, none, some, List, [], ◌∷◌, ◌++◌, Text, js}
use bastiondeck.Prelude.Json.{Json, str}
use bastiondeck.Client.{QueryValue, text, number}
use bastiondeck.Endpoints.Calls.{Call, api_get, api_post, api_patch, api_del, json, number_of}

pub data ExecOp : Type 0 where
  run : Json → ExecOp
  run_job : Text → ExecOp

unfoldable pub exec_call : ExecOp → Call
exec_call (ExecOp.run b) = api_post (js "/api/exec") (some b)
exec_call (ExecOp.run_job job_id) =
    api_post (js "/api/jobs/run") (some (json ((js "jobId", some (str job_id)) ∷ [])))

pub data JobOp : Type 0 where
  list : JobOp
  create : Json → JobOp
  update : Text → Json → JobOp
  remove : Text → JobOp

unfoldable pub job_call : JobOp → Call
job_call JobOp.list = api_get (js "/api/jobs") none
job_call (JobOp.create b) = api_post (js "/api/jobs") (some b)
job_call (JobOp.update id b) = api_patch (js "/api/jobs/" ++ id) (some b)
job_call (JobOp.remove id) = api_del (js "/api/jobs/" ++ id)

pub data RunOp : Type 0 where
  list : ℕ → Option ℕ → RunOp
  get : Text → RunOp
  output : Text → Text → Text → ℕ → RunOp
  cancel : Text → RunOp
  retry : Text → RunOp

unfoldable pub run_call : RunOp → Call
run_call (RunOp.list limit cursor) =
    api_get (js "/api/runs")
      (some ((js "limit", number limit) ∷ (js "cursor", number_of cursor) ∷ []))
run_call (RunOp.get id) = api_get (js "/api/runs/" ++ id) none
run_call (RunOp.output run_id target_id stream offset) =
    api_get (js "/api/runs/" ++ run_id ++ js "/targets/" ++ target_id ++ js "/output")
      (some ((js "stream", text stream) ∷ (js "offset", number offset) ∷ []))
run_call (RunOp.cancel id) = api_post (js "/api/runs/" ++ id ++ js "/cancel") none
run_call (RunOp.retry id) = api_post (js "/api/runs/" ++ id ++ js "/retry-failed") none

pub data SnippetOp : Type 0 where
  list : SnippetOp
  create : Json → SnippetOp
  update : Text → Json → SnippetOp
  remove : Text → SnippetOp
  render : Text → Json → SnippetOp

unfoldable pub snippet_call : SnippetOp → Call
snippet_call SnippetOp.list = api_get (js "/api/snippets") none
snippet_call (SnippetOp.create b) = api_post (js "/api/snippets") (some b)
snippet_call (SnippetOp.update id b) = api_patch (js "/api/snippets/" ++ id) (some b)
snippet_call (SnippetOp.remove id) = api_del (js "/api/snippets/" ++ id)
snippet_call (SnippetOp.render body vars) =
    api_post (js "/api/snippets/render")
      (some (json ((js "body", some (str body)) ∷ (js "vars", some vars) ∷ [])))

pub data AuditOp : Type 0 where
  list : List (Text × QueryValue) → AuditOp
  verify : AuditOp

unfoldable pub audit_call : AuditOp → Call
audit_call (AuditOp.list q) = api_get (js "/api/audit") (some q)
audit_call AuditOp.verify = api_post (js "/api/audit/verify") none
