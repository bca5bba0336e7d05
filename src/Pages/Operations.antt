-- ===== src/Pages/Operations.antt =====
-- The smaller pages: web/src/pages/Agents.tsx, web/src/pages/Settings.tsx and web/src/pages/Audit.tsx.
use bastiondeck.Prelude.{
  Bool, true, false, Option, none, some, List, [], ◌∷◌, ◌++◌, Text, js, if◌then◌else◌,
}
use bastiondeck.Prelude.Decimal.{show}
use bastiondeck.Prelude.Json.{obj}
use bastiondeck.Api.Inventory.{Agent, AgentStatus, pending, approved, blocked}
use bastiondeck.Client.{text, number, Response}
use bastiondeck.Hooks.{Outcome, ok, fail}
use bastiondeck.Toast.{info, success, error}
use bastiondeck.Endpoints.Fleet.{AgentOp, agent_call}
use bastiondeck.Endpoints.Session.{SettingsOp, settings_call}
use bastiondeck.Endpoints.Work.{AuditOp}
use bastiondeck.Template.{Vars, lookup, with_var}
use bastiondeck.Pages.{Effect, says, reloads, downloads, attempt, attempt_only}
use bastiondeck.Pages.Wizard.{vars_of}

-- The secret of an agent that has just been enrolled is kept to be shown once.
pub record Enrolled : Type 0 where
  pub id : Text
  pub secret : Text
  pub name : Text

abbrev pub name_or_new : Text → Text
name_or_new [] = js "new-agent"
name_or_new (c ∷ s) = c ∷ s

-- `doEnroll`; the answer is the id and the secret.
unfoldable do_enroll :
    Text → Outcome (Text × Text) → Option Enrolled → Option Enrolled × List Effect
do_enroll name o e =
    attempt (agent_call (AgentOp.enroll (name_or_new name))) e o (λ (r : Text × Text).
      (some (record { id = r.0; secret = r.1; name = name_or_new name }), reloads ∷ []))

abbrev pub is_approved : AgentStatus → Bool
is_approved approved = true
is_approved pending = false
is_approved blocked = false

abbrev pub is_blocked : AgentStatus → Bool
is_blocked blocked = true
is_blocked pending = false
is_blocked approved = false

-- The button that approves is there for an agent that is not approved.
unfoldable pub approve : Agent → Outcome (Unit {0}) → List Effect
approve a o =
    if is_approved a.status
    then []
    else attempt_only (agent_call (AgentOp.approve a.id)) o
        (λ _. reloads ∷ says success (js "已批准") ∷ [])

-- The button that blocks is there for an agent that is not blocked.
unfoldable pub block : Agent → Outcome (Unit {0}) → List Effect
block a o =
    if is_blocked a.status
    then []
    else attempt_only (agent_call (AgentOp.block a.id)) o (λ _. reloads ∷ says info (js "已拉黑") ∷ [])

-- The settings page: `draft` is replaced whenever the settings have been loaded.
unfoldable load_settings : Option Vars → Vars → Vars
load_settings none draft = draft
load_settings (some settings) draft = settings

-- The input of a setting, and what it shows
unfoldable set_setting : Text → Text → Vars → Vars
set_setting key value draft = with_var key value draft

unfoldable pub setting_value : Text → Vars → Text
unfolding lookup
setting_value key draft = elim (lookup key draft) [ none ↦ [] | some v ↦ v ]

unfoldable save_settings : Outcome (Unit {0}) → Vars → List Effect
save_settings o draft =
    attempt_only (settings_call (SettingsOp.put (obj (vars_of draft)))) o
      (λ _. says success (js "已保存") ∷ reloads ∷ [])

-- What the audit page lists, after its two debounced fields
unfoldable pub audit_query : Text → Text → Text → AuditOp
audit_query action actor result =
    (AuditOp.list (
      (js "action", text action)
      ∷ (js "actor", text actor)
      ∷ (js "result", text result)
      ∷ (js "limit", number 100)
      ∷ []))

-- `doExport` of the audit page. Its `fetch` is direct: `none` is a throw with a message, and `told` is
-- `j.error.message` of a body that is JSON and has one that is not empty.
unfoldable export_audit : (Text → Option Text) → Outcome Response → List Effect
export_audit told (fail m) = says error m ∷ []
export_audit told (ok r) =
    if r.ok
    then downloads (js "audit-export.json") r.text ∷ says info (js "已导出") ∷ []
    else says error
        (elim (told r.text) [ none ↦ js "导出失败（HTTP " ++ show r.status ++ js "）" | some m ↦ m ])
      ∷ []
