-- ===== src/Views/Settings.antt =====
-- web/src/pages/Settings.tsx: what the page of the settings reads and shows.
use bastiondeck.Prelude.{
  Bool, true, false, Option, none, some, List, [], ◌∷◌, ◌++◌, Text, js, if◌then◌else◌,
}
use bastiondeck.Prelude.Json.{obj}
use bastiondeck.Api.Activity.{DoctorCheck, DoctorReport}
use bastiondeck.Hooks.Async.{View}
use bastiondeck.Auth.{Auth, can}
use bastiondeck.Endpoints.Operations.{Operation, settings_op, doctor_op}
use bastiondeck.Endpoints.Fleet.{DoctorOp}
use bastiondeck.Endpoints.Session.{SettingsOp}
use bastiondeck.Pages.Operations.{setting_value}
use bastiondeck.Pages.Wizard.{vars_of}
use bastiondeck.Template.{Vars}
use bastiondeck.Views.{
  Node, text, button, input, row, only_if, each, status_badge, loading, error_box, page_title, flat,
}
use bastiondeck.Views.Dashboard.{detail_or}

-- A setting: its key, its label and its hint
pub record Field : Type 0 where
  pub key : Text
  pub label : Text
  pub hint : Text

abbrev fields : List Field
fields =
    record {
      key = js "session.ttlMinutes";
      label = js "会话有效期（分钟）";
      hint = js "默认 720；滑动续期，剩余不足一半时延长";
    }
    ∷ record { key = js "audit.retentionDays"; label = js "审计保留天数"; hint = js "超期由维护任务归档" }
    ∷ record { key = js "metrics.enabled"; label = js "启用指标采集"; hint = js "true / false" }
    ∷ record { key = js "metrics.intervalSec"; label = js "指标采集周期（秒）"; hint = js "后台采集循环间隔" }
    ∷ record { key = js "exec.defaultTimeoutSec"; label = js "默认执行超时（秒）"; hint = js "单次命令默认上限" }
    ∷ record { key = js "exec.maxConcurrency"; label = js "最大并发目标"; hint = js "扇出执行的并发闸" }
    ∷ record { key = js "theme.default"; label = js "默认主题"; hint = js "system / dark / light" }
    ∷ []

pub record SettingsPage : Type 0 where
  pub loaded : View Vars
  pub doctor : View (Option DoctorReport)
  pub draft : Vars

unfoldable pub settings_loads : Auth → List Operation
settings_loads s =
    settings_op SettingsOp.get ∷ (if can s (js "exec") then doctor_op DoctorOp.run ∷ [] else [])

abbrev pub save_button : Bool → Vars → Node
save_button true draft =
    button (js "保存设置") true (settings_op (SettingsOp.put (obj (vars_of draft))) ∷ [])
save_button false draft = text (js "仅 admin/owner 可修改运行参数")

abbrev field_input : Vars → Field → List Node
field_input draft f =
    input (f.label ++ js " （" ++ f.hint ++ js "）") (setting_value f.key draft) ∷ []

abbrev doctor_status : Option DoctorReport → Text
doctor_status none = js "pending"
doctor_status (some r) = if r.ok then js "success" else js "failed"

abbrev doctor_label : Option DoctorReport → Text
doctor_label none = js "—"
doctor_label (some r) = if r.ok then js "健康" else js "存在异常项"

abbrev check_row : DoctorCheck → List Node
check_row c =
    row c.name false
    ∷ text c.name
    ∷ text ((if c.ok then js "✓" else js "✗") ++ js " " ++ detail_or c.detail)
    ∷ []

abbrev checks_of : Option DoctorReport → List DoctorCheck
checks_of none = []
checks_of (some r) = r.checks

abbrev pub doctor_rows : View (Option DoctorReport) → List Node
doctor_rows v =
    page_title (js "Doctor 自检") (
      status_badge (doctor_status (flat v.value)) (some (doctor_label (flat v.value)))
      ∷ button (js "重新自检") true (doctor_op DoctorOp.run ∷ [])
      ∷ [])
    ++ (if v.loading then loading else each check_row (checks_of (flat v.value)))

unfoldable pub settings_view : Auth → SettingsPage → List Node
unfolding setting_value
settings_view s p =
    text (js "设置与自检") ∷ error_box p.loaded.error
    ++ page_title (js "运行参数") (save_button (can s (js "manage_inventory")) p.draft ∷ [])
    ++ (if p.loaded.loading then loading else each (field_input p.draft) fields)
    ++ only_if (can s (js "exec")) (doctor_rows p.doctor)
