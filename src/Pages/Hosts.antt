-- ===== src/Pages/Hosts.antt =====
-- web/src/pages/Hosts.tsx and web/src/pages/HostDetail.tsx: adding, importing and testing hosts, and
-- the quick command. A port is a whole number, `none` one that was not written.
pub mod Sent
use Prim.Native.Nat.{zero, suc}
use bastiondeck.Prelude.{
  ℕ, Bool, true, false, Option, none, some, List, [], ◌∷◌, ◌++◌, Text, js, is_empty, if◌then◌else◌,
}
use bastiondeck.Prelude.Decimal.{show}
use bastiondeck.Prelude.Ints.{ℤ, pos}
use bastiondeck.Prelude.Json.{Json, num, str, arr}
use bastiondeck.Api.Inventory.{AuthKind, credential, agent}
use bastiondeck.Client.{QueryValue, text}
use bastiondeck.Hooks.{Outcome}
use bastiondeck.Toast.{success, error}
use bastiondeck.Fields.{parse_tags}
use bastiondeck.Endpoints.Calls.{Call, json}
use bastiondeck.Endpoints.Fleet.{HostOp, host_call}
use bastiondeck.Endpoints.Work.{ExecOp, exec_call}
use bastiondeck.Pages.{Effect, says, reloads, goes, attempt, attempt_only, confirmed}
use bastiondeck.Pages.Wizard.{items_of}

pub record HostForm : Type 0 where
  pub name : Text
  pub address : Text
  pub port : Option ℤ
  pub username : Text
  pub credential_id : Text
  pub auth_kind : AuthKind
  pub jump_host_id : Text
  pub group_id : Text
  pub tags : Text
  pub notes : Text

abbrev empty_host : HostForm
empty_host = record {
  name = [];
  address = [];
  port = some (pos 22);
  username = js "root";
  credential_id = [];
  auth_kind = credential;
  jump_host_id = [];
  group_id = [];
  tags = [];
  notes = [];
}

-- `HostApi.list(dq ? { q: dq } : undefined)`
unfoldable pub list_op : Text → HostOp
list_op [] = HostOp.list none
list_op (c ∷ q) = HostOp.list (some ((js "q", text (c ∷ q)) ∷ []))

-- `s || undefined`
abbrev pub unless_empty : Text → Option Json
unless_empty [] = none
unless_empty (c ∷ s) = some (str (c ∷ s))

-- `Number(form.port) || 22`
abbrev port_or_22 : Option ℤ → ℤ
port_or_22 none = pos 22
port_or_22 (some (pos zero)) = pos 22
port_or_22 (some n) = n

abbrev pub kind_text : AuthKind → Text
kind_text credential = js "credential"
kind_text agent = js "agent"

-- `form.name || form.address`
abbrev name_or : Text → Text → Text
name_or [] address = address
name_or (c ∷ s) address = c ∷ s

abbrev pub host_form_op : HostForm → HostOp
host_form_op f =
    (HostOp.create (
      json (
        (js "name", some (str (name_or f.name f.address)))
        ∷ (js "address", some (str f.address))
        ∷ (js "port", some (num (port_or_22 f.port)))
        ∷ (js "username", some (str f.username))
        ∷ (js "credentialId", unless_empty f.credential_id)
        ∷ (js "authKind", some (str (kind_text f.auth_kind)))
        ∷ (js "jumpHostId", unless_empty f.jump_host_id)
        ∷ (js "groupId", unless_empty f.group_id)
        ∷ (js "tags", some (arr (items_of (parse_tags f.tags))))
        ∷ (js "notes", some (str f.notes))
        ∷ [])))

abbrev pub host_request : HostForm → Call
host_request f = host_call (host_form_op f)

-- `creating` and `form`
pub record HostDraft : Type 0 where
  pub creating : Bool
  pub form : HostForm

unfoldable pub create_host : Outcome (Unit {0}) → HostDraft → HostDraft × List Effect
create_host o d = attempt (host_request d.form) d o (λ _.
    (record { creating = false; form = empty_host }, says success (js "主机已添加") ∷ reloads ∷ []))

-- What the server answers to a test.
pub record Probe : Type 0 where
  pub ok : Bool
  pub fingerprint : Text
  pub status : Text

unfoldable test_host : Text → Outcome Probe → List Effect
test_host id o = attempt_only (host_call (HostOp.test id)) o (λ (r : Probe).
    (if r.ok
      then says success (js "连接成功，指纹 " ++ r.fingerprint)
      else says error (js "探测失败：" ++ r.status))
    ∷ reloads
    ∷ [])

-- The confirmed removal of a host
unfoldable remove_host : Text → Outcome (Unit {0}) → List Effect
remove_host id o =
    confirmed (host_call (HostOp.remove id)) o (λ _. reloads ∷ says success (js "已删除") ∷ [])

abbrev pub text_unless_empty : Text → Option Text
text_unless_empty [] = none
text_unless_empty (c ∷ s) = some (c ∷ s)

-- `run` of the dialog that imports; `true` while it is open
unfoldable import_hosts : Text → Text → Text → Outcome ℕ → Bool × List Effect
import_hosts config credential_id default_user o =
    attempt
      (host_call
        (HostOp.import_ssh_config config (text_unless_empty credential_id) (some default_user)))
      true o (λ n. (false, says success (js "导入 " ++ show n ++ js " 条") ∷ reloads ∷ []))

abbrev pub quick_op : Text → Text → ExecOp
quick_op id cmd =
    (ExecOp.run (
      json (
        (js "command", some (str cmd))
        ∷ (js "targetIds", some (arr (items_of (id ∷ []))))
        ∷ (js "timeoutSec", some (num (pos 30)))
        ∷ [])))

abbrev quick_request : Text → Text → Call
quick_request id cmd = exec_call (quick_op id cmd)

-- `quickExec`; the state is `runId`
unfoldable quick_exec : Text → Text → Outcome Text → Option Text → Option Text × List Effect
quick_exec id cmd o run_id =
    attempt (quick_request id cmd) run_id o
      (λ r. (some r, says success (js "已发起执行") ∷ goes (js "/runs/" ++ r) ∷ []))

-- The tabs of the page of a host
pub data Tab : Type 0 where
  term facts metrics exec : Tab

unfoldable first_tab : Bool → Tab
first_tab can_exec = if can_exec then term else facts

unfoldable pub tabs : Bool → List Tab
tabs can_exec = (if can_exec then term ∷ exec ∷ [] else []) ++ facts ∷ metrics ∷ []

-- The button that resets the key of a host, there for who manages the inventory
unfoldable pub reset_key : Bool → Text → Outcome (Unit {0}) → List Effect
reset_key can_manage id o =
    if can_manage
    then attempt_only (host_call (HostOp.reset_key id)) o
        (λ _. says success (js "已重置，下次连接重新信任") ∷ reloads ∷ [])
    else []

-- The confirmed removal of the host that is shown
unfoldable remove_shown : Bool → Text → Outcome (Unit {0}) → List Effect
remove_shown can_manage id o =
    if can_manage
    then confirmed (host_call (HostOp.remove id)) o (λ _. goes (js "/hosts") ∷ [])
    else []
