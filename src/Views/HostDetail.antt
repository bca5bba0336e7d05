-- ===== src/Views/HostDetail.antt =====
-- web/src/pages/HostDetail.tsx: what the page of one host reads and shows. A metric's values are
-- multiples of a unit of which `one` make one.
use bastiondeck.Prelude.{ℕ, true, Option, none, some, List, [], ◌∷◌, ◌++◌, Text, js, if◌then◌else◌}
use bastiondeck.Prelude.Decimal.{show}
use bastiondeck.Api.Inventory.{Host, Facts}
use bastiondeck.Format.{finite, fmt_bytes, fmt_uptime, short_id, join}
use bastiondeck.Hooks.{Outcome, ok, fail}
use bastiondeck.Hooks.Async.{View}
use bastiondeck.Auth.{Auth, can}
use bastiondeck.Endpoints.Operations.{Operation, host_op, metrics_op, exec_op}
use bastiondeck.Endpoints.Fleet.{HostOp, MetricsOp}
use bastiondeck.Pages.Hosts.{Tab, term, facts, metrics, exec, tabs, quick_op, kind_text}
use bastiondeck.Selection.{tags_of}
use bastiondeck.Views.{
  Node, text, link, button, input, terminal, only_if, each, loading, error_box, stat, key_val, flat,
  or_dash, or_nil,
}
use bastiondeck.Views.Widgets.{sparkline}
use bastiondeck.Views.Hosts.{host_badge, endpoint}

-- `metrics.data?.series`, with the values of the points
pub record Series : Type 0 where
  pub cpu : Option (List ℕ)
  pub mem : Option (List ℕ)

pub record HostDetail : Type 0 where
  pub tab : Tab
  pub host : View Host
  pub facts : View (Option Facts)
  pub metrics : View Series
  pub cmd : Text
  pub run_id : Option Text

-- The facts are skipped for who may not ask for them.
unfoldable pub detail_loads : Auth → Text → List Operation
detail_loads s id =
    host_op (HostOp.get id) ∷ (if can s (js "exec") then host_op (HostOp.facts id) ∷ [] else [])
    ++ metrics_op (MetricsOp.host id none none none) ∷ []

-- `.then((r) => r.facts).catch(() => null)`: a failure is an answer without facts.
unfoldable facts_answer : Outcome Facts → Outcome (Option Facts)
facts_answer (ok f) = ok (some f)
facts_answer (fail m) = ok none

abbrev short_or : Text → Option Text → Text
short_or missing none = missing
short_or missing (some []) = missing
short_or missing (some (c ∷ id)) = short_id (some (c ∷ id)) 10

abbrev text_or_dash : Text → Text
text_or_dash [] = js "—"
text_or_dash (c ∷ s) = c ∷ s

abbrev key_kind : Option Text → Text
key_kind none = js "ssh"
key_kind (some k) = k

abbrev known_key : Option Text → Option Text → Text
known_key kind none = js "尚未记录（首次连接走 TOFU）"
known_key kind (some []) = js "尚未记录（首次连接走 TOFU）"
known_key kind (some (c ∷ key)) = key_kind kind ++ js " " ++ c ∷ key

abbrev host_rows : Host → List (Text × Option Text)
host_rows h =
    (js "ID", some h.id)
    ∷ (js "地址", some (endpoint h.address h.port))
    ∷ (js "用户名", some h.username)
    ∷ (js "认证方式", some (kind_text h.auth_kind))
    ∷ (js "凭据", some (short_or (js "—") h.credential_id))
    ∷ (js "跳板", some (short_or (js "直连") h.jump_host_id))
    ∷ (js "标签", some (text_or_dash (join (js ", ") (tags_of h))))
    ∷ (js "已知主机密钥", some (known_key h.known_host_key_type h.known_host_key))
    ∷ (js "最近连通", some (or_dash h.last_connected_at))
    ∷ (js "备注", some (text_or_dash h.notes))
    ∷ []

abbrev host_buttons : Auth → Text → List Node
host_buttons s id =
    button (js "刷新") true (host_op (HostOp.get id) ∷ [])
      ∷ only_if (can s (js "manage_inventory"))
          (button (js "重置主机密钥") true (host_op (HostOp.reset_key id) ∷ []) ∷ [])
    ++ only_if (can s (js "manage_inventory"))
        (button (js "删除") true (host_op (HostOp.remove id) ∷ []) ∷ [])

abbrev tab_label : Tab → Text
tab_label term = js "交互终端"
tab_label exec = js "快捷执行"
tab_label facts = js "主机信息"
tab_label metrics = js "指标"

abbrev pub last_run : Option Text → List Node
last_run none = []
last_run (some []) = []
last_run (some (c ∷ id)) =
    link (js "/runs/" ++ c ∷ id) (js "最近一次：" ++ short_id (some (c ∷ id)) 10) ∷ []

abbrev pub facts_stats : (ℕ → ℕ → ℕ → Text) → Option Facts → List Node
facts_stats to_fixed none = text (js "无法获取（主机离线或 agent 未连接）") ∷ []
facts_stats to_fixed (some f) =
    stat f.hostname (js "主机名")
    ++ stat (f.os ++ js "/" ++ f.arch) (js "系统/架构")
    ++ stat f.kernel (js "内核")
    ++ stat (show f.cpu_cores) (js "CPU 核数")
    ++ stat (fmt_bytes to_fixed (finite f.mem_total)) (js "内存")
    ++ stat (fmt_uptime f.uptime_sec) (js "运行时长")

abbrev pub series : ℕ → List ℕ → List Node
series one [] = text (js "暂无数据") ∷ []
series one (v ∷ vs) = sparkline one (v ∷ vs)

abbrev cpu_of : Option Series → Option (List ℕ)
cpu_of none = none
cpu_of (some m) = m.cpu

abbrev mem_of : Option Series → Option (List ℕ)
mem_of none = none
mem_of (some m) = m.mem

-- What stands under the tabs
abbrev pub tab_view : (ℕ → ℕ → ℕ → Text) → ℕ → Text → HostDetail → Tab → List Node
tab_view to_fixed one id p term = terminal id ∷ []
tab_view to_fixed one id p exec =
    input (js "命令") p.cmd
    ∷ button (js "执行并跳转结果") true (exec_op (quick_op id p.cmd) ∷ [])
    ∷ last_run p.run_id
tab_view to_fixed one id p facts =
    if p.facts.loading then loading else facts_stats to_fixed (flat p.facts.value)
tab_view to_fixed one id p metrics =
    text (js "CPU（近 15 分钟）") ∷ series one (or_nil (cpu_of p.metrics.value))
    ++ text (js "内存（近 15 分钟）") ∷ series one (or_nil (mem_of p.metrics.value))

abbrev no_host : Option Text → Option Text
no_host none = some (js "主机不存在")
no_host (some m) = some m

abbrev pub host_shown : (ℕ → ℕ → ℕ → Text) → ℕ → Auth → Text → HostDetail → Option Host → List Node
host_shown to_fixed one s id p none = error_box (no_host p.host.error)
host_shown to_fixed one s id p (some h) =
    link (js "/hosts") (js "主机") ∷ text (js " / " ++ h.name) ∷ host_badge h ∷ error_box p.host.error
    ++ key_val (host_rows h)
    ++ host_buttons s id
    ++ each (λ t. button (tab_label t) true [] ∷ []) (tabs (can s (js "exec")))
    ++ tab_view to_fixed one id p p.tab

unfoldable pub detail_view : (ℕ → ℕ → ℕ → Text) → ℕ → Auth → Text → HostDetail → List Node
unfolding sparkline tabs
detail_view to_fixed one s id p =
    if p.host.loading then loading else host_shown to_fixed one s id p p.host.value
