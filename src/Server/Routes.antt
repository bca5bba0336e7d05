-- ===== src/Server/Routes.antt =====
-- internal/httpx/routes.go: the route that is meant for each call of the client, and the permission
-- that the route requires (the table itself is in the child Mux); internal/auth/model.go (Can) and internal/httpx (permsFor): which role has
-- which permissions.
pub mod Mux
pub mod Served
use bastiondeck.Prelude.{
  Bool, true, false, ◌&&◌, not, Option, none, some, find, drop, is_empty, List, [], ◌∷◌, ◌++◌, Text,
  js, ◌==◌, leb, filter, map, if◌then◌else◌,
}
use bastiondeck.Server.Roles.{rank}
use bastiondeck.Endpoints.Session.{StatusOp, AuthOp, UsersOp, CredOp, SettingsOp, BackupOp}
use bastiondeck.Endpoints.Fleet.{HostOp, AgentOp, TunnelOp, FsOp, MetricsOp, DoctorOp}
use bastiondeck.Endpoints.Work.{ExecOp, JobOp, RunOp, SnippetOp, AuditOp}
use bastiondeck.Endpoints.Operations.{
  Operation, status_op, auth_op, users_op, cred_op, settings_op, backup_op, host_op, agent_op,
  tunnel_op, fs_op, metrics_op, doctor_op, exec_op, job_op, run_op, snippet_op, audit_op,
}

pub data Permission : Type 0 where
  read exec manage_inventory audit manage_users owner : Permission

abbrev pub permission_name : Permission → Text
permission_name read = js "read"
permission_name exec = js "exec"
permission_name manage_inventory = js "manage_inventory"
permission_name audit = js "audit"
permission_name manage_users = js "manage_users"
permission_name owner = js "owner"

-- `Can`
unfoldable pub may : Text → Permission → Bool
unfolding rank ◌==◌
may role read = leb (rank (js "viewer")) (rank role)
may role exec = leb (rank (js "operator")) (rank role)
may role manage_inventory = leb (rank (js "admin")) (rank role)
may role audit = leb (rank (js "admin")) (rank role)
may role manage_users = leb (rank (js "admin")) (rank role)
may role owner = role == js "owner"

abbrev all_permissions : List Permission
all_permissions = read ∷ exec ∷ manage_inventory ∷ audit ∷ manage_users ∷ owner ∷ []

-- `permsFor`, what a role is told about itself
unfoldable pub permissions_for : Text → List Text
unfolding may
permissions_for role = map permission_name (filter (may role) all_permissions)

-- A route registered without a guard is open to everyone.
pub data Guard : Type 0 where
  anyone : Guard
  requires : Permission → Guard

-- A segment of a pattern: `{id}` stands for any one segment that is not empty.
pub data Segment : Type 0 where
  lit : Text → Segment
  id : Segment

pub record Route : Type 0 where
  pub verb : Text
  pub pattern : List Segment
  pub guard : Guard

abbrev pub on : Text → List Segment → Permission → Route
on verb segments p = record { verb = verb; pattern = segments; guard = requires p }

abbrev pub open_on : Text → List Segment → Route
open_on verb segments = record { verb = verb; pattern = segments; guard = anyone }

-- The route that is meant to serve a call of the client
unfoldable pub route_of : Operation → Route
route_of (status_op StatusOp.status) = open_on (js "GET") (lit (js "api") ∷ lit (js "status") ∷ [])
route_of (status_op StatusOp.health) = open_on (js "GET") (lit (js "api") ∷ lit (js "healthz") ∷ [])
route_of (auth_op (AuthOp.setup _ _ _)) =
    open_on (js "POST") (lit (js "api") ∷ lit (js "setup") ∷ [])
route_of (auth_op (AuthOp.login _ _ _)) =
    open_on (js "POST") (lit (js "api") ∷ lit (js "auth") ∷ lit (js "login") ∷ [])
route_of (auth_op AuthOp.logout) =
    open_on (js "POST") (lit (js "api") ∷ lit (js "auth") ∷ lit (js "logout") ∷ [])
route_of (auth_op AuthOp.me) =
    on (js "GET") (lit (js "api") ∷ lit (js "auth") ∷ lit (js "me") ∷ []) read
route_of (auth_op AuthOp.totp_setup) =
    on (js "POST") (lit (js "api") ∷ lit (js "auth") ∷ lit (js "totp") ∷ lit (js "setup") ∷ []) read
route_of (auth_op (AuthOp.totp_enable _)) =
    on (js "POST") (lit (js "api") ∷ lit (js "auth") ∷ lit (js "totp") ∷ lit (js "enable") ∷ [])
      read
route_of (auth_op (AuthOp.change_password _ _)) =
    on (js "POST") (lit (js "api") ∷ lit (js "auth") ∷ lit (js "password") ∷ []) read
route_of (users_op UsersOp.list) =
    on (js "GET") (lit (js "api") ∷ lit (js "users") ∷ []) manage_users
route_of (users_op (UsersOp.create _)) =
    on (js "POST") (lit (js "api") ∷ lit (js "users") ∷ []) manage_users
route_of (users_op (UsersOp.update _ _)) =
    on (js "PATCH") (lit (js "api") ∷ lit (js "users") ∷ id ∷ []) manage_users
route_of (users_op (UsersOp.remove _)) =
    on (js "DELETE") (lit (js "api") ∷ lit (js "users") ∷ id ∷ []) manage_users
route_of (users_op (UsersOp.sessions _)) =
    on (js "GET") (lit (js "api") ∷ lit (js "users") ∷ id ∷ lit (js "sessions") ∷ []) manage_users
route_of (users_op UsersOp.my_sessions) =
    on (js "GET") (lit (js "api") ∷ lit (js "sessions") ∷ []) read
route_of (users_op (UsersOp.revoke _)) =
    on (js "DELETE") (lit (js "api") ∷ lit (js "sessions") ∷ id ∷ []) read
route_of (users_op UsersOp.revoke_all) =
    on (js "POST") (lit (js "api") ∷ lit (js "sessions") ∷ lit (js "revoke-all") ∷ []) read
route_of (cred_op CredOp.list) = on (js "GET") (lit (js "api") ∷ lit (js "credentials") ∷ []) exec
route_of (cred_op (CredOp.create _)) =
    on (js "POST") (lit (js "api") ∷ lit (js "credentials") ∷ []) manage_inventory
route_of (cred_op (CredOp.update _ _)) =
    on (js "PATCH") (lit (js "api") ∷ lit (js "credentials") ∷ id ∷ []) manage_inventory
route_of (cred_op (CredOp.remove _)) =
    on (js "DELETE") (lit (js "api") ∷ lit (js "credentials") ∷ id ∷ []) manage_inventory
route_of (settings_op SettingsOp.get) =
    on (js "GET") (lit (js "api") ∷ lit (js "settings") ∷ []) read
route_of (settings_op (SettingsOp.put _)) =
    on (js "PUT") (lit (js "api") ∷ lit (js "settings") ∷ []) manage_inventory
route_of (backup_op (BackupOp.«export» _)) =
    on (js "POST") (lit (js "api") ∷ lit (js "backup") ∷ lit (js "export") ∷ []) owner
route_of (backup_op (BackupOp.inspect _ _)) =
    on (js "POST") (lit (js "api") ∷ lit (js "backup") ∷ lit (js "inspect") ∷ []) owner
route_of (backup_op (BackupOp.restore _ _ _)) =
    on (js "POST") (lit (js "api") ∷ lit (js "backup") ∷ lit (js "restore") ∷ []) owner
route_of (host_op (HostOp.list _)) = on (js "GET") (lit (js "api") ∷ lit (js "hosts") ∷ []) read
route_of (host_op (HostOp.get _)) = on (js "GET") (lit (js "api") ∷ lit (js "hosts") ∷ id ∷ []) read
route_of (host_op (HostOp.create _)) =
    on (js "POST") (lit (js "api") ∷ lit (js "hosts") ∷ []) manage_inventory
route_of (host_op (HostOp.update _ _)) =
    on (js "PATCH") (lit (js "api") ∷ lit (js "hosts") ∷ id ∷ []) manage_inventory
route_of (host_op (HostOp.remove _)) =
    on (js "DELETE") (lit (js "api") ∷ lit (js "hosts") ∷ id ∷ []) manage_inventory
route_of (host_op (HostOp.test _)) =
    on (js "POST") (lit (js "api") ∷ lit (js "hosts") ∷ id ∷ lit (js "test") ∷ []) exec
route_of (host_op (HostOp.reset_key _)) =
    on (js "POST") (lit (js "api") ∷ lit (js "hosts") ∷ id ∷ lit (js "reset-host-key") ∷ [])
      manage_inventory
route_of (host_op (HostOp.facts _)) =
    on (js "POST") (lit (js "api") ∷ lit (js "hosts") ∷ id ∷ lit (js "facts") ∷ []) exec
route_of (host_op (HostOp.import_ssh_config _ _ _)) =
    on (js "POST") (lit (js "api") ∷ lit (js "hosts") ∷ lit (js "import-sshconfig") ∷ [])
      manage_inventory
route_of (host_op HostOp.groups) = on (js "GET") (lit (js "api") ∷ lit (js "groups") ∷ []) read
route_of (host_op (HostOp.create_group _ _)) =
    on (js "POST") (lit (js "api") ∷ lit (js "groups") ∷ []) manage_inventory
route_of (host_op (HostOp.rename_group _ _)) =
    on (js "PATCH") (lit (js "api") ∷ lit (js "groups") ∷ id ∷ []) manage_inventory
route_of (host_op (HostOp.remove_group _)) =
    on (js "DELETE") (lit (js "api") ∷ lit (js "groups") ∷ id ∷ []) manage_inventory
route_of (agent_op AgentOp.list) =
    on (js "GET") (lit (js "api") ∷ lit (js "agents") ∷ []) manage_inventory
route_of (agent_op (AgentOp.enroll _)) =
    on (js "POST") (lit (js "api") ∷ lit (js "agents") ∷ lit (js "enroll") ∷ []) manage_inventory
route_of (agent_op (AgentOp.approve _)) =
    on (js "POST") (lit (js "api") ∷ lit (js "agents") ∷ id ∷ lit (js "approve") ∷ [])
      manage_inventory
route_of (agent_op (AgentOp.block _)) =
    on (js "POST") (lit (js "api") ∷ lit (js "agents") ∷ id ∷ lit (js "block") ∷ [])
      manage_inventory
route_of (tunnel_op TunnelOp.list) = on (js "GET") (lit (js "api") ∷ lit (js "tunnels") ∷ []) read
route_of (tunnel_op (TunnelOp.create _)) =
    on (js "POST") (lit (js "api") ∷ lit (js "tunnels") ∷ []) exec
route_of (tunnel_op (TunnelOp.stop _)) =
    on (js "POST") (lit (js "api") ∷ lit (js "tunnels") ∷ id ∷ lit (js "stop") ∷ []) exec
route_of (fs_op (FsOp.list _ _)) =
    on (js "GET") (lit (js "api") ∷ lit (js "fs") ∷ lit (js "list") ∷ []) exec
route_of (fs_op (FsOp.stat _ _)) =
    on (js "POST") (lit (js "api") ∷ lit (js "fs") ∷ lit (js "stat") ∷ []) exec
route_of (fs_op (FsOp.read _ _ _)) =
    on (js "GET") (lit (js "api") ∷ lit (js "fs") ∷ lit (js "read") ∷ []) exec
route_of (fs_op (FsOp.write _ _ _ _)) =
    on (js "POST") (lit (js "api") ∷ lit (js "fs") ∷ lit (js "write") ∷ []) exec
route_of (fs_op (FsOp.mkdir _ _)) =
    on (js "POST") (lit (js "api") ∷ lit (js "fs") ∷ lit (js "mkdir") ∷ []) exec
route_of (fs_op (FsOp.rename _ _ _)) =
    on (js "POST") (lit (js "api") ∷ lit (js "fs") ∷ lit (js "rename") ∷ []) exec
route_of (fs_op (FsOp.remove _ _)) =
    on (js "POST") (lit (js "api") ∷ lit (js "fs") ∷ lit (js "delete") ∷ []) exec
route_of (metrics_op (MetricsOp.host _ _ _ _)) =
    on (js "GET") (lit (js "api") ∷ lit (js "metrics") ∷ lit (js "hosts") ∷ id ∷ []) read
route_of (doctor_op DoctorOp.run) = on (js "GET") (lit (js "api") ∷ lit (js "doctor") ∷ []) exec
route_of (exec_op (ExecOp.run _)) = on (js "POST") (lit (js "api") ∷ lit (js "exec") ∷ []) exec
route_of (exec_op (ExecOp.run_job _)) =
    on (js "POST") (lit (js "api") ∷ lit (js "jobs") ∷ lit (js "run") ∷ []) exec
route_of (job_op JobOp.list) = on (js "GET") (lit (js "api") ∷ lit (js "jobs") ∷ []) read
route_of (job_op (JobOp.create _)) = on (js "POST") (lit (js "api") ∷ lit (js "jobs") ∷ []) exec
route_of (job_op (JobOp.update _ _)) =
    on (js "PATCH") (lit (js "api") ∷ lit (js "jobs") ∷ id ∷ []) exec
route_of (job_op (JobOp.remove _)) =
    on (js "DELETE") (lit (js "api") ∷ lit (js "jobs") ∷ id ∷ []) exec
route_of (run_op (RunOp.list _ _)) = on (js "GET") (lit (js "api") ∷ lit (js "runs") ∷ []) read
route_of (run_op (RunOp.get _)) = on (js "GET") (lit (js "api") ∷ lit (js "runs") ∷ id ∷ []) read
route_of (run_op (RunOp.output _ _ _ _)) =
    on (js "GET")
      (lit (js "api") ∷ lit (js "runs") ∷ id ∷ lit (js "targets") ∷ id ∷ lit (js "output") ∷ [])
      read
route_of (run_op (RunOp.cancel _)) =
    on (js "POST") (lit (js "api") ∷ lit (js "runs") ∷ id ∷ lit (js "cancel") ∷ []) exec
route_of (run_op (RunOp.retry _)) =
    on (js "POST") (lit (js "api") ∷ lit (js "runs") ∷ id ∷ lit (js "retry-failed") ∷ []) exec
route_of (snippet_op SnippetOp.list) =
    on (js "GET") (lit (js "api") ∷ lit (js "snippets") ∷ []) read
route_of (snippet_op (SnippetOp.create _)) =
    on (js "POST") (lit (js "api") ∷ lit (js "snippets") ∷ []) manage_inventory
route_of (snippet_op (SnippetOp.update _ _)) =
    on (js "PATCH") (lit (js "api") ∷ lit (js "snippets") ∷ id ∷ []) manage_inventory
route_of (snippet_op (SnippetOp.remove _)) =
    on (js "DELETE") (lit (js "api") ∷ lit (js "snippets") ∷ id ∷ []) manage_inventory
route_of (snippet_op (SnippetOp.render _ _)) =
    on (js "POST") (lit (js "api") ∷ lit (js "snippets") ∷ lit (js "render") ∷ []) read
route_of (audit_op (AuditOp.list _)) = on (js "GET") (lit (js "api") ∷ lit (js "audit") ∷ []) audit
route_of (audit_op AuditOp.verify) =
    on (js "POST") (lit (js "api") ∷ lit (js "audit") ∷ lit (js "verify") ∷ []) audit

-- `requirePerm` lets the request of a user with this role through.
abbrev pub lets_through : Guard → Text → Bool
lets_through anyone role = true
lets_through (requires p) role = may role p
