-- ===== src/Endpoints/Fleet.antt =====
-- web/src/api/endpoints.ts: the calls for hosts, agents, tunnels, files, metrics and the self-check.
use bastiondeck.Prelude.{ℕ, Option, none, some, List, [], ◌∷◌, ◌++◌, Text, js}
use bastiondeck.Prelude.Json.{Json, str}
use bastiondeck.Client.{QueryValue, text, number}
use bastiondeck.Endpoints.Calls.{
  Call, api_get, api_post, api_patch, api_del, json, text_of, query_text,
}

pub data HostOp : Type 0 where
  list : Option (List (Text × QueryValue)) → HostOp
  get : Text → HostOp
  create : Json → HostOp
  update : Text → Json → HostOp
  remove : Text → HostOp
  test : Text → HostOp
  reset_key : Text → HostOp
  facts : Text → HostOp
  import_ssh_config : Text → Option Text → Option Text → HostOp
  groups : HostOp
  create_group : Text → Option Text → HostOp
  rename_group : Text → Text → HostOp
  remove_group : Text → HostOp

unfoldable pub host_call : HostOp → Call
host_call (HostOp.list q) = api_get (js "/api/hosts") q
host_call (HostOp.get id) = api_get (js "/api/hosts/" ++ id) none
host_call (HostOp.create b) = api_post (js "/api/hosts") (some b)
host_call (HostOp.update id b) = api_patch (js "/api/hosts/" ++ id) (some b)
host_call (HostOp.remove id) = api_del (js "/api/hosts/" ++ id)
host_call (HostOp.test id) = api_post (js "/api/hosts/" ++ id ++ js "/test") none
host_call (HostOp.reset_key id) = api_post (js "/api/hosts/" ++ id ++ js "/reset-host-key") none
host_call (HostOp.facts id) = api_post (js "/api/hosts/" ++ id ++ js "/facts") none
host_call (HostOp.import_ssh_config config credential_id default_user) =
    api_post (js "/api/hosts/import-sshconfig") (
      some (
        json (
          (js "text", some (str config))
          ∷ (js "credentialId", text_of credential_id)
          ∷ (js "defaultUser", text_of default_user)
          ∷ [])))
host_call HostOp.groups = api_get (js "/api/groups") none
host_call (HostOp.create_group name parent_id) =
    api_post (js "/api/groups")
      (some (json ((js "name", some (str name)) ∷ (js "parentId", text_of parent_id) ∷ [])))
host_call (HostOp.rename_group id name) =
    api_patch (js "/api/groups/" ++ id) (some (json ((js "name", some (str name)) ∷ [])))
host_call (HostOp.remove_group id) = api_del (js "/api/groups/" ++ id)

pub data AgentOp : Type 0 where
  list : AgentOp
  enroll : Text → AgentOp
  approve : Text → AgentOp
  block : Text → AgentOp

unfoldable pub agent_call : AgentOp → Call
agent_call AgentOp.list = api_get (js "/api/agents") none
agent_call (AgentOp.enroll name) =
    api_post (js "/api/agents/enroll") (some (json ((js "name", some (str name)) ∷ [])))
agent_call (AgentOp.approve id) = api_post (js "/api/agents/" ++ id ++ js "/approve") none
agent_call (AgentOp.block id) = api_post (js "/api/agents/" ++ id ++ js "/block") none

pub data TunnelOp : Type 0 where
  list : TunnelOp
  create : Json → TunnelOp
  stop : Text → TunnelOp

unfoldable pub tunnel_call : TunnelOp → Call
tunnel_call TunnelOp.list = api_get (js "/api/tunnels") none
tunnel_call (TunnelOp.create b) = api_post (js "/api/tunnels") (some b)
tunnel_call (TunnelOp.stop id) = api_post (js "/api/tunnels/" ++ id ++ js "/stop") none

pub data FsOp : Type 0 where
  list : Text → Text → FsOp
  stat : Text → Text → FsOp
  read : Text → Text → ℕ → FsOp
  write : Text → Text → Text → Option Text → FsOp
  mkdir : Text → Text → FsOp
  rename : Text → Text → Text → FsOp
  remove : Text → Text → FsOp

unfoldable pub fs_call : FsOp → Call
fs_call (FsOp.list host_id path) =
    api_get (js "/api/fs/list") (some ((js "hostId", text host_id) ∷ (js "path", text path) ∷ []))
fs_call (FsOp.stat host_id path) =
    api_post (js "/api/fs/stat")
      (some (json ((js "hostId", some (str host_id)) ∷ (js "path", some (str path)) ∷ [])))
fs_call (FsOp.read host_id path limit) =
    api_get (js "/api/fs/read") (
      some ((js "hostId", text host_id) ∷ (js "path", text path) ∷ (js "limit", number limit) ∷ []))
fs_call (FsOp.write host_id path content_base64 expected_sha) = api_post (js "/api/fs/write") (
    some (
      json (
        (js "hostId", some (str host_id))
        ∷ (js "path", some (str path))
        ∷ (js "contentBase64", some (str content_base64))
        ∷ (js "expectedSha", text_of expected_sha)
        ∷ [])))
fs_call (FsOp.mkdir host_id path) =
    api_post (js "/api/fs/mkdir")
      (some (json ((js "hostId", some (str host_id)) ∷ (js "path", some (str path)) ∷ [])))
fs_call (FsOp.rename host_id from to) = api_post (js "/api/fs/rename") (
    some (
      json (
        (js "hostId", some (str host_id))
        ∷ (js "from", some (str from))
        ∷ (js "to", some (str to))
        ∷ [])))
fs_call (FsOp.remove host_id path) =
    api_post (js "/api/fs/delete")
      (some (json ((js "hostId", some (str host_id)) ∷ (js "path", some (str path)) ∷ [])))

pub data MetricsOp : Type 0 where
  host : Text → Option Text → Option Text → Option Text → MetricsOp

unfoldable pub metrics_call : MetricsOp → Call
metrics_call (MetricsOp.host id kind from to) = api_get (js "/api/metrics/hosts/" ++ id) (
    some
      ((js "kind", query_text kind) ∷ (js "from", query_text from) ∷ (js "to", query_text to) ∷ []))

pub data DoctorOp : Type 0 where
  run : DoctorOp

unfoldable pub doctor_call : DoctorOp → Call
doctor_call DoctorOp.run = api_get (js "/api/doctor") none
