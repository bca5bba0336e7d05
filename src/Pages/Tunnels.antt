-- ===== src/Pages/Tunnels.antt =====
-- web/src/pages/Tunnels.tsx: the form for a tunnel, and which tunnels may be stopped. A port is a
-- whole number; `none` is one that was not written.
pub mod Ports
use Prim.Native.Nat.{zero, suc}
use bastiondeck.Prelude.{
  ℕ, Bool, true, false, ◌&&◌, ◌||◌, Option, none, some, List, [], ◌∷◌, Text, js, ◌==◌, ltb,
  is_empty, if◌then◌else◌,
}
use bastiondeck.Prelude.Ints.{ℤ, pos, negsuc}
use bastiondeck.Prelude.Json.{num, str}
use bastiondeck.Api.Activity.{TunnelKind, local, remote, Tunnel}
use bastiondeck.Hooks.{Outcome, ok, fail}
use bastiondeck.Toast.{success, error}
use bastiondeck.Endpoints.Calls.{Call, json}
use bastiondeck.Endpoints.Fleet.{TunnelOp, tunnel_call}
use bastiondeck.Pages.{Effect, calls, says, reloads, attempt, confirmed}

pub record TunnelForm : Type 0 where
  pub host_id : Option Text
  pub kind : Option TunnelKind
  pub local_host : Option Text
  pub local_port : Option ℤ
  pub remote_host : Option Text
  pub remote_port : Option ℤ

abbrev pub new_tunnel : TunnelForm
new_tunnel = record {
  host_id = none;
  kind = some local;
  local_host = some (js "127.0.0.1");
  local_port = none;
  remote_host = some (js "127.0.0.1");
  remote_port = none;
}

-- `!(!p || p < 1 || p > 65535)`, and then the port
abbrev pub port_of : Option ℤ → Option ℕ
port_of none = none
port_of (some (negsuc n)) = none
port_of (some (pos zero)) = none
port_of (some (pos (suc n))) = if ltb 65535 (suc n) then none else some (suc n)

-- `!form.hostId`
abbrev pub host_of : Option Text → Option Text
host_of none = none
host_of (some []) = none
host_of (some (c ∷ s)) = some (c ∷ s)

abbrev kind_name : Option TunnelKind → Text
kind_name none = js "local"
kind_name (some local) = js "local"
kind_name (some remote) = js "remote"

-- `form.localHost || '127.0.0.1'`
abbrev or_loopback : Option Text → Text
or_loopback none = js "127.0.0.1"
or_loopback (some []) = js "127.0.0.1"
or_loopback (some (c ∷ s)) = c ∷ s

abbrev pub tunnel_form_op : TunnelForm → Text → ℕ → ℕ → TunnelOp
tunnel_form_op f host lp rp =
    (TunnelOp.create (
      json (
        (js "hostId", some (str host))
        ∷ (js "kind", some (str (kind_name f.kind)))
        ∷ (js "localHost", some (str (or_loopback f.local_host)))
        ∷ (js "localPort", some (num (pos lp)))
        ∷ (js "remoteHost", some (str (or_loopback f.remote_host)))
        ∷ (js "remotePort", some (num (pos rp)))
        ∷ [])))

abbrev pub tunnel_request : TunnelForm → Text → ℕ → ℕ → Call
tunnel_request f host lp rp = tunnel_call (tunnel_form_op f host lp rp)

-- The checks in their order, and then the call
abbrev pub checked :
    Outcome (Unit {0})
    → TunnelForm
    → Option Text
    → Option ℕ
    → Option ℕ
    → Option TunnelForm × List Effect
checked o f none lp rp = (some f, says error (js "请选择主机") ∷ [])
checked o f (some host) none rp = (some f, says error (js "本地端口需在 1-65535") ∷ [])
checked o f (some host) (some lp) none = (some f, says error (js "远端端口需在 1-65535") ∷ [])
checked o f (some host) (some lp) (some rp) =
    attempt (tunnel_request f host lp rp) (some f) o
      (λ _. (none, says success (js "隧道已建立") ∷ reloads ∷ []))

unfoldable pub create_tunnel :
    Outcome (Unit {0}) → Option TunnelForm → Option TunnelForm × List Effect
create_tunnel o none = (none, [])
create_tunnel o (some f) =
    checked o f (host_of f.host_id) (port_of f.local_port) (port_of f.remote_port)

-- The button that stops a tunnel is there
unfoldable pub may_stop : Bool → Tunnel → Bool
unfolding ◌==◌
may_stop can_exec t = (t.status == js "active" || t.status == js "starting") && can_exec

-- The confirmed stop of a tunnel
unfoldable stop_tunnel : Text → Outcome (Unit {0}) → List Effect
stop_tunnel id o = confirmed (tunnel_call (TunnelOp.stop id)) o (λ _. reloads ∷ [])
