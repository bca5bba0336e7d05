-- ===== src/Views/Agents.antt =====
-- web/src/pages/Agents.tsx: what the page of the agents reads and shows.
use bastiondeck.Prelude.{
  Bool, true, false, not, Option, none, some, List, [], ◌∷◌, ◌++◌, Text, js, if◌then◌else◌,
}
use bastiondeck.Api.Inventory.{Agent, AgentStatus, pending, approved, blocked}
use bastiondeck.Format.{short_id}
use bastiondeck.Hooks.Async.{View}
use bastiondeck.Endpoints.Operations.{Operation, agent_op}
use bastiondeck.Endpoints.Fleet.{AgentOp}
use bastiondeck.Pages.Operations.{Enrolled, name_or_new, is_approved, is_blocked}
use bastiondeck.Views.{
  Node, text, button, input, row, dialog, only_if, each, Dates, age_at, status_badge, loading,
  empty, error_box, page_title, or_dash,
}

abbrev pub agents_loads : List Operation
agents_loads = agent_op AgentOp.list ∷ []

abbrev status_text : AgentStatus → Text
status_text pending = js "pending"
status_text approved = js "approved"
status_text blocked = js "blocked"

abbrev online_badge : Bool → Node
online_badge online =
    status_badge (if online then js "online" else js "offline")
      (some (if online then js "在线" else js "离线"))

abbrev agent_row : Dates → Agent → List Node
agent_row dates a =
    row a.id false
      ∷ text a.name
      ∷ text (short_id (some a.id) 10)
      ∷ online_badge a.online
      ∷ status_badge (status_text a.status) none
      ∷ text (or_dash a.version)
      ∷ text (age_at dates a.last_seen_at)
      ∷ only_if (not (is_approved a.status))
          (button (js "批准") true (agent_op (AgentOp.approve a.id) ∷ []) ∷ [])
    ++ only_if (not (is_blocked a.status))
        (button (js "拉黑") true (agent_op (AgentOp.block a.id) ∷ []) ∷ [])

abbrev pub agent_rows : Dates → Option (List Agent) → List Node
agent_rows dates none = []
agent_rows dates (some []) = empty (js "暂无 agent 节点")
agent_rows dates (some (a ∷ as_)) = each (agent_row dates) (a ∷ as_)

abbrev pub enrol_dialog : Option Enrolled → List Node
enrol_dialog none = []
enrol_dialog (some e) =
    dialog (js "Agent 注册信息（密钥仅显示一次）")
    ∷ text (js "在目标机器上运行：")
    ∷ text (
        js "bd-agent --server https://<你的地址> \\\n  --secret "
        ++ e.secret
        ++ js " \\\n  --name "
        ++ e.name)
    ∷ text (js "关闭后无法再次查看该密钥，可重新注册。")
    ∷ []

unfoldable pub agents_view : Dates → View (List Agent) → Text → Option Enrolled → List Node
agents_view dates v name enrolled =
    text (js "bd-agent 节点") ∷ error_box v.error
    ++ page_title (js "反向接入节点（出站 WebSocket，审批后才可执行）") (
        input (js "节点名") name
        ∷ button (js "注册并获取一次性密钥") true (agent_op (AgentOp.enroll (name_or_new name)) ∷ [])
        ∷ [])
    ++ (if v.loading then loading else agent_rows dates v.value)
    ++ enrol_dialog enrolled
