-- ===== src/Views/Audit.antt =====
-- web/src/pages/Audit.tsx: what the page of the audit log reads and shows.
use bastiondeck.Prelude.{
  ℕ, true, false, Option, none, some, List, [], ◌∷◌, ◌++◌, Text, js, take, if◌then◌else◌,
}
use bastiondeck.Prelude.Decimal.{show}
use bastiondeck.Api.Activity.{AuditEntry}
use bastiondeck.Hooks.Async.{View}
use bastiondeck.Endpoints.Operations.{Operation, audit_op}
use bastiondeck.Endpoints.Work.{AuditOp}
use bastiondeck.Pages.Operations.{audit_query}
use bastiondeck.Views.{
  Node, text, button, input, choice, row, each, Dates, time_of, status_badge, loading, error_box,
  page_title, or_dash, or_nil,
}
use bastiondeck.Views.Dashboard.{Chain, reason}

-- `action`, `actor` and `result` are what is typed and chosen; `shown_action` and `shown_actor` the
-- debounced values.
pub record AuditPage : Type 0 where
  pub action : Text
  pub actor : Text
  pub result : Text
  pub shown_action : Text
  pub shown_actor : Text
  pub verify : View Chain
  pub entries : View (List AuditEntry)

unfoldable pub audit_loads : AuditPage → List Operation
unfolding audit_query
audit_loads p =
    audit_op AuditOp.verify ∷ audit_op (audit_query p.shown_action p.shown_actor p.result) ∷ []

abbrev broken_place : Option ℕ → Text
broken_place none = js "undefined"
broken_place (some n) = show n

abbrev pub chain_badge : Option Chain → List Node
chain_badge none = []
chain_badge (some c) =
    status_badge (if c.ok then js "success" else js "failed") (
      some (
        if c.ok
        then js "完整（" ++ show c.checked ++ js " 条）"
        else js "断裂于 #" ++ broken_place c.broken_at))
    ∷ []

abbrev pub chain_reason : Option Chain → List Node
chain_reason none = []
chain_reason (some c) = reason c.reason

abbrev actor_of : AuditEntry → Text
actor_of e = elim e.actor_name [ none ↦ or_dash e.actor_id | some n ↦ n ]

abbrev object_suffix : Option Text → Text
object_suffix none = []
object_suffix (some []) = []
object_suffix (some (c ∷ id)) = js ":" ++ take 8 (c ∷ id)

abbrev blank_or : Option Text → Text
blank_or none = []
blank_or (some s) = s

abbrev seq_text : Option ℕ → Text
seq_text none = []
seq_text (some n) = show n

abbrev entry_row : Dates → AuditEntry → List Node
entry_row dates e =
    row e.event_id false
    ∷ text (seq_text e.seq)
    ∷ text (time_of dates (some e.at))
    ∷ text (actor_of e)
    ∷ text e.action
    ∷ text (blank_or e.object_type ++ object_suffix e.object_id)
    ∷ status_badge e.result none
    ∷ text (or_dash e.ip)
    ∷ text (take 10 e.hash)
    ∷ []

abbrev result_options : List (Text × Text)
result_options =
    ([], js "全部结果")
    ∷ (js "success", js "成功")
    ∷ (js "denied", js "拒绝")
    ∷ (js "failure", js "失败")
    ∷ []

unfoldable pub audit_view : Dates → AuditPage → List Node
audit_view dates p =
    text (js "审计日志（哈希链防篡改）") ∷ error_box p.entries.error
    ++ text (js "链完整性：") ∷ (if p.verify.loading then loading else chain_badge p.verify.value)
    ++ button (js "重新校验") true (audit_op AuditOp.verify ∷ [])
      ∷ button (js "导出 JSON") true []
      ∷ chain_reason p.verify.value
    ++ page_title (js "事件流") (
        input (js "动作") p.action
        ∷ input (js "操作者") p.actor
        ∷ choice [] p.result result_options []
        ∷ [])
    ++ (if p.entries.loading then loading else each (entry_row dates) (or_nil p.entries.value))
