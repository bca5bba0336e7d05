-- ===== src/Views/Hosts.antt =====
-- web/src/pages/Hosts.tsx: what the page of the hosts reads and shows.

use bastiondeck.Prelude.{
  ℕ, Bool, true, false, Option, none, some, List, [], ◌∷◌, ◌++◌, Text, js, length, map,
  if◌then◌else◌,
}
use bastiondeck.Prelude.Decimal.{show}
use bastiondeck.Prelude.Ints.{ℤ, pos, negsuc}
use bastiondeck.Prelude.Maps
use bastiondeck.Api.Inventory.{Credential, CredentialKind, password, private_key, Group, Host}
use bastiondeck.Format.{short_id, join}
use bastiondeck.Hooks.Async.{View}
use bastiondeck.Auth.{Auth, can}
use bastiondeck.Endpoints.Operations.{Operation, cred_op, host_op}
use bastiondeck.Endpoints.Fleet.{HostOp}
use bastiondeck.Endpoints.Session.{CredOp}
use bastiondeck.Pages.Hosts.{HostForm, host_form_op, kind_text, list_op, text_unless_empty}
use bastiondeck.Selection.{tags_of}
use bastiondeck.Views.{
  Node, text, link, button, input, choice, row, dialog, only_if, each, status_badge, loading, empty,
  error_box, page_title, flat, or_nil,
}
use bastiondeck.Views.Groups.{groups_view}
use bastiondeck.Pages.Groups.{Panel}

-- The fields of `ImportModal`; `result` is the JSON text of what was imported.
pub record ImportForm : Type 0 where
  pub config : Text
  pub credential_id : Text
  pub default_user : Text
  pub result : Option Text

pub record HostsPage : Type 0 where
  pub q : Text
  pub creating : Bool
  pub importing : Option ImportForm
  pub form : HostForm
  pub hosts : View (List Host)
  pub creds : View (Option (List Credential))
  pub groups : View (List Group)
  pub panel : Panel

-- The listing of credentials is skipped for who may not read them.
unfoldable pub hosts_loads : Auth → Text → List Operation
unfolding list_op
hosts_loads s dq =
    host_op (list_op dq) ∷ (if can s (js "exec") then cred_op CredOp.list ∷ [] else [])
    ++ host_op HostOp.groups ∷ []

abbrev credentials_of : HostsPage → List Credential
credentials_of p = or_nil (flat p.creds.value)

-- `credMap`
abbrev cred_map : HostsPage → List (Text × Credential)
cred_map p = Maps.set_all (λ (c : Credential). c.id) [] (credentials_of p)

abbrev named : Text → Option Credential → Text
named id none = short_id (some id) 10
named id (some c) = c.name

-- The cell of the credential
abbrev credential_cell : List (Text × Credential) → Option Text → Text
credential_cell m none = js "—"
credential_cell m (some []) = js "—"
credential_cell m (some (c ∷ id)) = named (c ∷ id) (Maps.get (c ∷ id) m)

-- `h.lastStatus || missing`
abbrev status_or : Text → Text → Text
status_or missing [] = missing
status_or missing (c ∷ s) = c ∷ s

abbrev pub host_badge : Host → Node
host_badge h =
    status_badge (status_or (js "pending") h.last_status)
      (some (status_or (js "未探测") h.last_status))

abbrev pub endpoint : Text → ℕ → Text
endpoint address port = address ++ js ":" ++ show port

abbrev pub host_row : Auth → List (Text × Credential) → Host → List Node
host_row s m h =
    row h.id false ∷ link (js "/hosts/" ++ h.id) h.name ∷ only_if h.favorite (text (js " ★") ∷ [])
    ++ text (endpoint h.address h.port)
      ∷ text h.username
      ∷ text (credential_cell m h.credential_id)
      ∷ text (join (js ", ") (tags_of h))
      ∷ host_badge h
      ∷ only_if (can s (js "exec")) (button (js "探测") true (host_op (HostOp.test h.id) ∷ []) ∷ [])
    ++ link (js "/hosts/" ++ h.id) (js "详情")
      ∷ only_if (can s (js "manage_inventory"))
          (button (js "删除") true (host_op (HostOp.remove h.id) ∷ []) ∷ [])

abbrev is_no_host : Option (List Host) → Bool
is_no_host none = false
is_no_host (some []) = true
is_no_host (some (h ∷ hs)) = false

unfoldable pub host_table : Auth → HostsPage → List Node
unfolding Maps.get Maps.set_all
host_table s p =
    if p.hosts.loading
    then loading
    else if is_no_host p.hosts.value
    then empty (if can s (js "manage_inventory") then js "还没有主机，点击右上角添加" else js "还没有主机")
    else each (host_row s (cred_map p)) (or_nil p.hosts.value)

abbrev kind_name : CredentialKind → Text
kind_name password = js "password"
kind_name private_key = js "private_key"

-- The value of an input of a number; one that is no number shows nothing.
abbrev pub number_value : Option ℤ → Text
number_value none = []
number_value (some (pos n)) = show n
number_value (some (negsuc n)) = js "-" ++ show (Prim.Native.Nat.suc n)

unfoldable pub create_dialog : HostsPage → List Node
create_dialog p =
    dialog (js "添加主机")
    ∷ input (js "名称") p.form.name
    ∷ input (js "地址") p.form.address
    ∷ input (js "端口") (number_value p.form.port)
    ∷ input (js "用户名") p.form.username
    ∷ choice (js "认证方式") (kind_text p.form.auth_kind)
        ((js "credential", js "凭据（密码/密钥）") ∷ (js "agent", js "bd-agent") ∷ []) []
    ∷ choice (js "凭据") p.form.credential_id
        (([], js "请选择")
          ∷ map (λ (c : Credential). (c.id, c.name ++ js "（" ++ kind_name c.kind ++ js "）"))
              (credentials_of p))
        []
    ∷ choice (js "跳板主机 ID（可选，最多 5 级，禁环）") p.form.jump_host_id
        (([], js "无") ∷ map (λ (h : Host). (h.id, h.name)) (or_nil p.hosts.value)) []
    ∷ choice (js "分组") p.form.group_id
        (([], js "无分组") ∷ map (λ (g : Group). (g.id, g.name)) (or_nil p.groups.value)) []
    ∷ input (js "标签（逗号分隔）") p.form.tags
    ∷ input (js "备注") p.form.notes
    ∷ button (js "取消") true []
    ∷ button (js "保存") true (host_op (host_form_op p.form) ∷ [])
    ∷ []

abbrev pub result_text : Option Text → List Node
result_text none = []
result_text (some s) = text s ∷ []

-- `ImportModal`
abbrev import_modal : List Credential → ImportForm → List Node
import_modal creds f =
    dialog (js "导入 ~/.ssh/config")
      ∷ input (js "默认用户") f.default_user
      ∷ choice (js "统一凭据") f.credential_id
          (([], js "不指定") ∷ map (λ (c : Credential). (c.id, c.name)) creds) []
      ∷ input (js "粘贴 ssh config 文本（通配符条目会被跳过）") f.config
      ∷ result_text f.result
    ++ button (js "关闭") true []
      ∷ button (js "解析并导入") true (
          host_op (
            HostOp.import_ssh_config f.config (text_unless_empty f.credential_id)
              (some f.default_user))
          ∷ [])
      ∷ []

abbrev pub import_dialog : HostsPage → Option ImportForm → List Node
import_dialog p none = []
import_dialog p (some f) = import_modal (credentials_of p) f

abbrev count_of : Option (List Host) → ℕ
count_of none = 0
count_of (some hs) = length hs

abbrev toolbar : Auth → HostsPage → List Node
toolbar s p =
    input (js "搜索名称/地址/标签") p.q
    ∷ only_if (can s (js "manage_inventory"))
        (button (js "导入 SSH config") true [] ∷ button (js "+ 添加主机") true [] ∷ [])

unfoldable pub hosts_view : Auth → HostsPage → List Node
hosts_view s p =
    text (js "主机") ∷ error_box p.hosts.error
    ++ page_title (js "主机列表（" ++ show (count_of p.hosts.value) ++ js "）") (toolbar s p)
    ++ host_table s p
    ++ only_if p.creating (create_dialog p)
    ++ groups_view (or_nil p.groups.value) (or_nil p.hosts.value)
        (if can s (js "manage_inventory") then false else true) p.panel
    ++ import_dialog p p.importing
