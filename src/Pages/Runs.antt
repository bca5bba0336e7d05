-- ===== src/Pages/Runs.antt =====
-- web/src/pages/Runs.tsx, and the buttons of web/src/pages/RunDetail.tsx.
pub mod Retry
use bastiondeck.Prelude.{
  ℕ, ◌+◌, Bool, true, false, ◌&&◌, ◌||◌, not, Option, none, some, List, [], ◌∷◌, ◌++◌, Text, js,
  ◌==◌, contains, filter, is_empty, ltb, if◌then◌else◌,
}
use bastiondeck.Api.Activity.{Run, RunSummary, RunTarget}
use bastiondeck.Hooks.{Outcome, ok, fail}
use bastiondeck.Toast.{info, success, error}
use bastiondeck.Endpoints.Calls.{Call}
use bastiondeck.Endpoints.Work.{RunOp, run_call}
use bastiondeck.Pages.{Effect, calls, says, reloads, goes, attempt_only, confirmed}

-- `runs.filter((r) => !filter || r.status === filter)`
unfoldable pub listed : Text → List Run → List Run
unfolding ◌==◌
listed wanted runs = filter (λ r. is_empty wanted || r.status == wanted) runs

-- The button that cancels a run is there
unfoldable pub may_cancel : Run → Bool
unfolding contains
may_cancel r = contains r.status (js "pending" ∷ js "running" ∷ [])

-- `selected ?? targets[0]?.id ?? null`
unfoldable pub active_target : Option Text → List RunTarget → Option Text
active_target (some id) ts = some id
active_target none [] = none
active_target none (t ∷ ts) = some t.id

-- `!live && r.summary.failed + r.summary.lost > 0`
unfoldable pub may_retry : Bool → RunSummary → Bool
may_retry live s = not live && ltb 0 (s.failed + s.lost)

unfoldable pub retry : Text → Outcome Text → List Effect
retry id o =
    attempt_only (run_call (RunOp.retry id)) o
      (λ run_id. says success (js "已重投失败目标") ∷ goes (js "/runs/" ++ run_id) ∷ [])

-- The confirmed cancellation of a run, in the list and on its page
unfoldable cancel_listed : Text → Outcome (Unit {0}) → List Effect
cancel_listed id o = confirmed (run_call (RunOp.cancel id)) o (λ _. reloads ∷ [])

unfoldable cancel_shown : Text → Outcome (Unit {0}) → List Effect
cancel_shown id o =
    confirmed (run_call (RunOp.cancel id)) o (λ _. reloads ∷ says info (js "已请求取消") ∷ [])
