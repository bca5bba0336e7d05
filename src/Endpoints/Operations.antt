-- ===== src/Endpoints/Operations.antt =====
-- Every call that the client can make.
use bastiondeck.Prelude.{
  Text, js, ◌++◌, ◌≡◌, refl, true, Option, none, some, List, if◌then◌else◌, not, ◌==◌,
}
use bastiondeck.Prelude.Json.{Json}
use bastiondeck.Client.{build}
use bastiondeck.Client.Headers.{header, is_write, header-build}
use bastiondeck.Server.Csrf.{is_safe_method, csrf_guard, csrf_guard-passes}
use bastiondeck.Endpoints.Calls.{Call}
use bastiondeck.Endpoints.Session.{
  StatusOp, status_call, AuthOp, auth_call, UsersOp, users_call, CredOp, cred_call, SettingsOp,
  settings_call, BackupOp, backup_call,
}
use bastiondeck.Endpoints.Fleet.{
  HostOp, host_call, AgentOp, agent_call, TunnelOp, tunnel_call, FsOp, fs_call, MetricsOp,
  metrics_call, DoctorOp, doctor_call,
}
use bastiondeck.Endpoints.Work.{
  ExecOp, exec_call, JobOp, job_call, RunOp, run_call, SnippetOp, snippet_call, AuditOp, audit_call,
}

pub data Operation : Type 0 where
  status_op : StatusOp → Operation
  auth_op : AuthOp → Operation
  users_op : UsersOp → Operation
  cred_op : CredOp → Operation
  settings_op : SettingsOp → Operation
  backup_op : BackupOp → Operation
  host_op : HostOp → Operation
  agent_op : AgentOp → Operation
  tunnel_op : TunnelOp → Operation
  fs_op : FsOp → Operation
  metrics_op : MetricsOp → Operation
  doctor_op : DoctorOp → Operation
  exec_op : ExecOp → Operation
  job_op : JobOp → Operation
  run_op : RunOp → Operation
  snippet_op : SnippetOp → Operation
  audit_op : AuditOp → Operation

unfoldable pub call : Operation → Call
unfolding status_call auth_call users_call cred_call settings_call backup_call host_call agent_call
    tunnel_call fs_call metrics_call doctor_call exec_call job_call run_call snippet_call audit_call
call (status_op o) = status_call o
call (auth_op o) = auth_call o
call (users_op o) = users_call o
call (cred_op o) = cred_call o
call (settings_op o) = settings_call o
call (backup_op o) = backup_call o
call (host_op o) = host_call o
call (agent_op o) = agent_call o
call (tunnel_op o) = tunnel_call o
call (fs_op o) = fs_call o
call (metrics_op o) = metrics_call o
call (doctor_op o) = doctor_call o
call (exec_op o) = exec_call o
call (job_op o) = job_call o
call (run_op o) = run_call o
call (snippet_op o) = snippet_call o
call (audit_op o) = audit_call o

abbrev IsApiPath : Call → Type 0
IsApiPath c = (rest : Text) × (c.path ≡ js "/api/" ++ rest)

-- Every call goes to a path under "/api/".
call-IsApiPath : (o : Operation) → IsApiPath (call o)
unfolding call
call-IsApiPath (status_op StatusOp.status) = (_, refl)
call-IsApiPath (auth_op (AuthOp.setup _ _ _)) = (_, refl)
call-IsApiPath (users_op UsersOp.list) = (_, refl)
call-IsApiPath (cred_op CredOp.list) = (_, refl)
call-IsApiPath (settings_op SettingsOp.get) = (_, refl)
call-IsApiPath (backup_op (BackupOp.«export» _)) = (_, refl)
call-IsApiPath (host_op (HostOp.list _)) = (_, refl)
call-IsApiPath (agent_op AgentOp.list) = (_, refl)
call-IsApiPath (tunnel_op TunnelOp.list) = (_, refl)
call-IsApiPath (fs_op (FsOp.list _ _)) = (_, refl)
call-IsApiPath (metrics_op (MetricsOp.host _ _ _ _)) = (_, refl)
call-IsApiPath (doctor_op DoctorOp.run) = (_, refl)
call-IsApiPath (exec_op (ExecOp.run _)) = (_, refl)
call-IsApiPath (job_op JobOp.list) = (_, refl)
call-IsApiPath (run_op (RunOp.list _ _)) = (_, refl)
call-IsApiPath (snippet_op SnippetOp.list) = (_, refl)
call-IsApiPath (audit_op (AuditOp.list _)) = (_, refl)
call-IsApiPath _ = (_, refl)

method_lem : (o : Operation) → is_write (call o).method ≡ not (is_safe_method (call o).method)
unfolding call ◌==◌ is_safe_method
method_lem (status_op StatusOp.status) = refl
method_lem (auth_op (AuthOp.setup _ _ _)) = refl
method_lem (users_op UsersOp.list) = refl
method_lem (cred_op CredOp.list) = refl
method_lem (settings_op SettingsOp.get) = refl
method_lem (backup_op (BackupOp.«export» _)) = refl
method_lem (host_op (HostOp.list _)) = refl
method_lem (agent_op AgentOp.list) = refl
method_lem (tunnel_op TunnelOp.list) = refl
method_lem (fs_op (FsOp.list _ _)) = refl
method_lem (metrics_op (MetricsOp.host _ _ _ _)) = refl
method_lem (doctor_op DoctorOp.run) = refl
method_lem (exec_op (ExecOp.run _)) = refl
method_lem (job_op JobOp.list) = refl
method_lem (run_op (RunOp.list _ _)) = refl
method_lem (snippet_op SnippetOp.list) = refl
method_lem (audit_op (AuditOp.list _)) = refl
method_lem _ = refl

-- Whatever the token, each call of the client passes the server's guard against forged requests; and it
-- has the header that the guard asks for exactly if its method is not one that the guard lets through
-- without.
pub csrf-call :
    (encode : List (Text × Text) → Text) (stringify : Json → Text) (token : Option Text)
    (o : Operation)
    → let c = call o in
      let headers = (build encode stringify token c.method c.path c.body c.query).headers in
      (csrf_guard c.method headers ≡ true)
      × (header (js "X-BDK-CSRF") headers
          ≡ (if is_safe_method c.method then none else some (js "1")))
csrf-call encode stringify token o =
    let c = call o in
    csrf_guard-passes c.method (build encode stringify token c.method c.path c.body c.query).headers
      (is_write c.method) (method_lem o)
      (header-build encode stringify token c.method c.path c.body c.query).0
