-- ===== src/Views/Dashboard.antt =====
-- web/src/pages/Dashboard.tsx: what the page reads and what it shows.
pub mod Health
use bastiondeck.Prelude.{
  ℕ, ◌+◌, Bool, true, false, not, Option, none, some, List, [], ◌∷◌, ◌++◌, Text, js, length,
  if◌then◌else◌,
}
use bastiondeck.Prelude.Decimal.{show}
use bastiondeck.Api.Inventory.{Host}
use bastiondeck.Api.Activity.{Run, DoctorCheck, DoctorReport}
use bastiondeck.RunMath.{Rollup, rollup_runs}
use bastiondeck.Format.{short_id}
use bastiondeck.Hooks.Async.{View}
use bastiondeck.Auth.{Auth, can}
use bastiondeck.Endpoints.Operations.{Operation, host_op, doctor_op, run_op, audit_op}
use bastiondeck.Endpoints.Fleet.{HostOp, DoctorOp}
use bastiondeck.Endpoints.Work.{RunOp, AuditOp}
use bastiondeck.Views.{
  Node, text, link, row, only_if, each, Dates, age_at, status_badge, loading, error_box, page_title,
  stat, or_else, flat, or_nil,
}

-- What the server answers to a check of the audit log.
pub record Chain : Type 0 where
  pub ok : Bool
  pub checked : ℕ
  pub broken_at : Option ℕ
  pub reason : Option Text

-- The four calls of `useAsync`; the last two are skipped for who lacks the permission.
pub record Dashboard : Type 0 where
  pub hosts : View (List Host)
  pub runs : View (List Run)
  pub audit : View (Option Chain)
  pub doctor : View (Option DoctorReport)

unfoldable pub loads : Auth → List Operation
loads s =
    host_op (HostOp.list none)
      ∷ run_op (RunOp.list 8 none)
      ∷ (if can s (js "audit") then audit_op AuditOp.verify ∷ [] else [])
    ++ (if can s (js "exec") then doctor_op DoctorOp.run ∷ [] else [])

abbrev host_count : Option (List Host) → Text
host_count none = js "–"
host_count (some hs) = show (length hs)

abbrev totals : Dashboard → Rollup
totals d = rollup_runs (or_nil d.runs.value)

abbrev stats : Dashboard → List Node
stats d =
    stat (host_count d.hosts.value) (js "纳管主机")
    ++ stat (show (totals d).running) (js "执行中目标")
    ++ stat (show (totals d).success) (js "近期成功")
    ++ stat (show (totals d).failed) (js "近期失败")
    ++ stat (show (totals d).lost) (js "失联目标")

abbrev run_row : Dates → Run → List Node
run_row dates r =
    row r.id false
    ∷ link (js "/runs/" ++ r.id) (short_id (some r.id) 10)
    ∷ status_badge r.status none
    ∷ text (show r.summary.success ++ js "/" ++ show (r.summary.failed + r.summary.lost))
    ∷ text r.trigger
    ∷ text (age_at dates (or_else r.started_at (some r.created_at)))
    ∷ []

abbrev recent : Dates → Dashboard → List Node
recent dates d =
    page_title (js "最近执行") (link (js "/runs") (js "全部") ∷ [])
    ++ (if d.runs.loading then loading else each (run_row dates) (or_nil d.runs.value))

abbrev pub health : Bool → Node
health ok =
    status_badge (if ok then js "success" else js "failed") (some (if ok then js "健康" else js "异常"))

abbrev pub detail_or : Option Text → Text
detail_or none = []
detail_or (some s) = s

abbrev check_row : DoctorCheck → List Node
check_row c =
    row c.name false
    ∷ text c.name
    ∷ text ((if c.ok then js "✓" else js "✗") ++ js " " ++ detail_or c.detail)
    ∷ []

abbrev pub report : Option DoctorReport → List Node
report none = text (js "自检暂不可用。") ∷ []
report (some r) = text (js "总体") ∷ health r.ok ∷ each check_row r.checks

-- The panel of the self-check
unfoldable pub doctor_panel : Auth → View (Option DoctorReport) → List Node
doctor_panel s v = page_title (js "系统自检") (
    if not (can s (js "exec"))
    then text (js "需要执行权限才能运行自检。") ∷ []
    else if v.loading
    then loading
    else report (flat v.value))

abbrev chain_badge : Chain → Node
chain_badge c =
    status_badge (if c.ok then js "success" else js "failed")
      (some (if c.ok then js "已校验 " ++ show c.checked ++ js " 条" else js "链断裂"))

abbrev pub reason : Option Text → List Node
reason none = []
reason (some []) = []
reason (some (c ∷ s)) = text (c ∷ s) ∷ []

abbrev pub chain_report : Option Chain → List Node
chain_report none = []
chain_report (some c) = text (js "完整性") ∷ chain_badge c ∷ reason c.reason

-- The panel of the audit log's hash chain
unfoldable pub audit_panel : Auth → View (Option Chain) → List Node
audit_panel s v = only_if (can s (js "audit")) (
    page_title (js "审计哈希链") (link (js "/audit") (js "查看") ∷ [])
    ++ (if v.loading then loading else chain_report (flat v.value)))

unfoldable pub dashboard_view : Dates → Auth → Dashboard → List Node
dashboard_view dates s d =
    text (js "仪表盘") ∷ error_box (or_else d.hosts.error d.runs.error)
    ++ stats d
    ++ recent dates d
    ++ doctor_panel s d.doctor
    ++ audit_panel s d.audit
