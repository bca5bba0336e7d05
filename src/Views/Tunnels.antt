-- ===== src/Views/Tunnels.antt =====
-- web/src/pages/Tunnels.tsx: what the page of the tunnels reads and shows, and the inputs of its form.
use bastiondeck.Prelude.{
  ℕ, Bool, true, false, Option, none, some, List, [], ◌∷◌, ◌++◌, Text, js, ◌==◌, map, find,
  if◌then◌else◌,
}
use bastiondeck.Prelude.Ints.{ℤ}
use bastiondeck.Api.Inventory.{Host}
use bastiondeck.Api.Activity.{Tunnel, TunnelKind, local, remote}
use bastiondeck.Hooks.Async.{View}
use bastiondeck.Auth.{Auth, can}
use bastiondeck.Endpoints.Operations.{Operation, host_op, tunnel_op}
use bastiondeck.Endpoints.Fleet.{HostOp, TunnelOp}
use bastiondeck.Pages.Tunnels.{TunnelForm, may_stop, host_of, port_of, tunnel_form_op}
use bastiondeck.Views.{
  Node, text, button, input, choice, row, dialog, only_if, each, Dates, time_of, status_badge,
  loading, empty, error_box, page_title, or_nil,
}
use bastiondeck.Views.Hosts.{endpoint, number_value}

pub record TunnelsPage : Type 0 where
  pub tunnels : View (List Tunnel)
  pub hosts : View (List Host)
  pub form : Option TunnelForm

abbrev pub tunnels_loads : List Operation
tunnels_loads = tunnel_op TunnelOp.list ∷ host_op (HostOp.list none) ∷ []

abbrev kind_label : TunnelKind → Text
kind_label local = js "本地转发 -L"
kind_label remote = js "远程转发 -R"

abbrev name_or : Text → Option Host → Text
name_or id none = id
name_or id (some h) = h.name

abbrev pub last_error : Option Text → List Node
last_error none = []
last_error (some []) = []
last_error (some (c ∷ s)) = text (js " " ++ c ∷ s) ∷ []

abbrev tunnel_row : Dates → Auth → List Host → Tunnel → List Node
tunnel_row dates s hosts t =
    row t.id false
      ∷ text (kind_label t.kind)
      ∷ text (name_or t.host_id (find (λ (h : Host). h.id == t.host_id) hosts))
      ∷ text (endpoint t.local_host t.local_port)
      ∷ text (endpoint t.remote_host t.remote_port)
      ∷ status_badge t.status none
      ∷ last_error t.last_error
    ++ text (time_of dates t.started_at)
      ∷ only_if (may_stop (can s (js "exec")) t)
          (button (js "停止") true (tunnel_op (TunnelOp.stop t.id) ∷ []) ∷ [])

abbrev is_no_tunnel : Option (List Tunnel) → Bool
is_no_tunnel none = false
is_no_tunnel (some []) = true
is_no_tunnel (some (t ∷ ts)) = false

unfoldable pub tunnel_table : Dates → Auth → TunnelsPage → List Node
tunnel_table dates s p =
    if p.tunnels.loading
    then loading
    else if is_no_tunnel p.tunnels.value
    then empty (js "暂无隧道")
    else each (tunnel_row dates s (or_nil p.hosts.value)) (or_nil p.tunnels.value)

abbrev text_or_blank : Option Text → Text
text_or_blank none = []
text_or_blank (some s) = s

abbrev kind_value : Option TunnelKind → Text
kind_value none = []
kind_value (some local) = js "local"
kind_value (some remote) = js "remote"

-- The call that the form makes, if its host and its ports pass the checks
abbrev pub tunnel_calls : TunnelForm → Option Text → Option ℕ → Option ℕ → List Operation
tunnel_calls f none lp rp = []
tunnel_calls f (some host) none rp = []
tunnel_calls f (some host) (some lp) none = []
tunnel_calls f (some host) (some lp) (some rp) = tunnel_op (tunnel_form_op f host lp rp) ∷ []

abbrev pub tunnel_dialog : List Host → Option TunnelForm → List Node
tunnel_dialog hosts none = []
tunnel_dialog hosts (some f) =
    dialog (js "新建隧道")
    ∷ choice (js "主机") (text_or_blank f.host_id)
        (([], js "请选择") ∷ map (λ (h : Host). (h.id, h.name)) hosts) []
    ∷ choice (js "类型") (kind_value f.kind)
        ((js "local", js "本地转发（访问本地端口 → 远端可达地址）") ∷ (js "remote", js "远程转发（远端端口 → 本地可达地址）") ∷ []) []
    ∷ input (js "本地监听地址") (text_or_blank f.local_host)
    ∷ input (js "本地端口") (number_value f.local_port)
    ∷ input (js "远端地址") (text_or_blank f.remote_host)
    ∷ input (js "远端端口") (number_value f.remote_port)
    ∷ button (js "取消") true []
    ∷ button (js "建立") true
        (tunnel_calls f (host_of f.host_id) (port_of f.local_port) (port_of f.remote_port))
    ∷ []

unfoldable pub tunnels_view : Dates → Auth → TunnelsPage → List Node
tunnels_view dates s p =
    text (js "端口转发") ∷ error_box p.tunnels.error
    ++ page_title (js "SSH 隧道（守护进程托管，重启后自动对账恢复）")
        (only_if (can s (js "exec")) (button (js "+ 新建隧道") true [] ∷ []))
    ++ tunnel_table dates s p
    ++ tunnel_dialog (or_nil p.hosts.value) p.form

-- The inputs of the form
pub data TunnelEdit : Type 0 where
  host local_host remote_host : Text → TunnelEdit
  kind : TunnelKind → TunnelEdit
  local_port remote_port : ℤ → TunnelEdit

unfoldable edit_tunnel : TunnelEdit → TunnelForm → TunnelForm
edit_tunnel (TunnelEdit.host v) f = record f { host_id = some v }
edit_tunnel (TunnelEdit.local_host v) f = record f { local_host = some v }
edit_tunnel (TunnelEdit.remote_host v) f = record f { remote_host = some v }
edit_tunnel (TunnelEdit.kind k) f = record f { kind = some k }
edit_tunnel (TunnelEdit.local_port n) f = record f { local_port = some n }
edit_tunnel (TunnelEdit.remote_port n) f = record f { remote_port = some n }
