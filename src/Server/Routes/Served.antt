-- ===== src/Server/Routes/Served.antt =====
-- Which route of the server a call of the client meets, and the permissions that a role is told are
-- those that the routes ask for.
use mathlib.Core.List.{append_assoc}
use bastiondeck.Pages.Files.{split, is_slash}
use bastiondeck.Server.Routes.Mux.{only, routes, fits, serve, is_met}
use bastiondeck.Prelude.{
  ℕ, Bool, true, false, ◌&&◌, ◌||◌, leb, eqb, All, is_empty, some, filter, drop, List, [], ◌∷◌,
  ◌++◌, Text, js, ◌==◌, contains, ◌≡◌, refl, ap, arith,
}
use bastiondeck.Endpoints.Session.{StatusOp, AuthOp, UsersOp, CredOp, SettingsOp, BackupOp}
use bastiondeck.Endpoints.Fleet.{HostOp, AgentOp, TunnelOp, FsOp, MetricsOp, DoctorOp}
use bastiondeck.Endpoints.Work.{ExecOp, JobOp, RunOp, SnippetOp, AuditOp}
use bastiondeck.Endpoints.Operations.{
  Operation, status_op, auth_op, users_op, cred_op, settings_op, backup_op, host_op, agent_op,
  tunnel_op, fs_op, metrics_op, doctor_op, exec_op, job_op, run_op, snippet_op, audit_op, call,
}
use bastiondeck.Server.Routes.{
  Route, Permission, read, exec, manage_inventory, audit, manage_users, owner, permission_name, may,
  permissions_for, route_of,
}

-- What the ids that the server makes up are written with
abbrev is_id_char : ℕ → Bool
is_id_char c =
    (leb b'a' c && leb c b'z')
    || (leb b'A' c && leb c b'Z')
    || (leb b'0' c && leb c b'9')
    || eqb c b'_'
    || eqb c b'-'

abbrev pub IsId : Text → Type 0
IsId s = (is_empty s ≡ false) × All (λ c. is_id_char c ≡ true) s

-- The ids in the path of a call
abbrev ids_of : Operation → List Text
ids_of (users_op (UsersOp.update i _)) = i ∷ []
ids_of (users_op (UsersOp.remove i)) = i ∷ []
ids_of (users_op (UsersOp.sessions i)) = i ∷ []
ids_of (users_op (UsersOp.revoke i)) = i ∷ []
ids_of (cred_op (CredOp.update i _)) = i ∷ []
ids_of (cred_op (CredOp.remove i)) = i ∷ []
ids_of (host_op (HostOp.get i)) = i ∷ []
ids_of (host_op (HostOp.update i _)) = i ∷ []
ids_of (host_op (HostOp.remove i)) = i ∷ []
ids_of (host_op (HostOp.test i)) = i ∷ []
ids_of (host_op (HostOp.reset_key i)) = i ∷ []
ids_of (host_op (HostOp.facts i)) = i ∷ []
ids_of (host_op (HostOp.rename_group i _)) = i ∷ []
ids_of (host_op (HostOp.remove_group i)) = i ∷ []
ids_of (agent_op (AgentOp.approve i)) = i ∷ []
ids_of (agent_op (AgentOp.block i)) = i ∷ []
ids_of (tunnel_op (TunnelOp.stop i)) = i ∷ []
ids_of (metrics_op (MetricsOp.host i _ _ _)) = i ∷ []
ids_of (job_op (JobOp.update i _)) = i ∷ []
ids_of (job_op (JobOp.remove i)) = i ∷ []
ids_of (run_op (RunOp.get i)) = i ∷ []
ids_of (run_op (RunOp.output i t _ _)) = i ∷ t ∷ []
ids_of (run_op (RunOp.cancel i)) = i ∷ []
ids_of (run_op (RunOp.retry i)) = i ∷ []
ids_of (snippet_op (SnippetOp.update i _)) = i ∷ []
ids_of (snippet_op (SnippetOp.remove i)) = i ∷ []
ids_of _ = []

split_id : (s : Text) → All (λ c. is_id_char c ≡ true) s → split s ≡ s ∷ []
unfolding split
split_id [] h = refl
split_id (c ∷ s) (h, hs) =
    let bare : is_slash c ≡ false = ground arith in rw (bare, split_id s hs) refl

split_id_then :
    (s r : Text) → All (λ c. is_id_char c ≡ true) s → split (s ++ b'/' ∷ r) ≡ s ∷ split r
unfolding split
split_id_then [] r h = refl
split_id_then (c ∷ s) r (h, hs) =
    let bare : is_slash c ≡ false = ground arith in rw (bare, split_id_then s r hs) refl

found_at :
    (verb path : Text) (segments : List Text) (r : Route)
    → drop 1 (split path) ≡ segments
    → only (filter (is_met verb segments) routes) ≡ some r
    → serve verb path ≡ some r
unfolding serve
found_at verb path segments r e h = rw e h

-- A path with one id among its segments
one_id :
    (verb path : Text) (segments : Text → List Text) (i : Text) (r : Route)
    → is_empty i ≡ false
    → drop 1 (split path) ≡ segments i
    → ((c : ℕ) (t : Text) → only (filter (is_met verb (segments (c ∷ t))) routes) ≡ some r)
    → serve verb path ≡ some r
one_id verb path segments [] r e p h = absurd (ground arith)
one_id verb path segments (c ∷ t) r e p h = found_at verb path (segments (c ∷ t)) r p (h c t)

output_met :
    (i t : Text)
    → is_empty i ≡ false
    → is_empty t ≡ false
    → only (
        filter
          (is_met (js "GET") (js "api" ∷ js "runs" ∷ i ∷ js "targets" ∷ t ∷ js "output" ∷ []))
          routes)
      ≡ some (route_of (run_op (RunOp.output i t [] 0)))
unfolding routes fits route_of ◌==◌
output_met [] t e k = absurd (ground arith)
output_met (c ∷ i) [] e k = absurd (ground arith)
output_met (c ∷ i) (d ∷ t) e k = refl

output_split :
    (i t : Text)
    → All (λ c. is_id_char c ≡ true) i
    → All (λ c. is_id_char c ≡ true) t
    → split (i ++ js "/targets/" ++ t ++ js "/output") ≡ i ∷ js "targets" ∷ t ∷ js "output" ∷ []
unfolding split
output_split i t h l =
    rw
      (
        append_assoc (i ++ js "/targets/") t (js "/output"),
        append_assoc i (js "/targets/") (t ++ js "/output"),
        split_id_then i (js "targets/" ++ (t ++ js "/output")) h,
        split_id_then t (js "output") l,
      )
      refl

output_found :
    (i t x : Text) (n : ℕ)
    → is_empty i ≡ false
    → All (λ c. is_id_char c ≡ true) i
    → IsId t
    → serve
        (call (run_op (RunOp.output i t x n))).method
        (call (run_op (RunOp.output i t x n))).path
      ≡ some (route_of (run_op (RunOp.output i t x n)))
unfolding call split route_of
output_found i t x n e h (k, l) =
    found_at _ _ (js "api" ∷ js "runs" ∷ i ∷ js "targets" ∷ t ∷ js "output" ∷ []) _
      (ap (λ ss. js "api" ∷ js "runs" ∷ ss) (output_split i t h l)) (output_met i t e k)

-- With ids as the server makes them up, of letters, digits, underscores and hyphens and not empty,
-- every call of the client meets, by its method and the segments of its path, the route that is meant
-- for it, and no other of the server's routes.
pub serve-call :
    (o : Operation) → All IsId (ids_of o) → serve (call o).method (call o).path ≡ some (route_of o)
unfolding call route_of routes fits split ◌==◌
serve-call (users_op (UsersOp.update i b)) ((e, h), _) =
    one_id _ _ (λ s. js "api" ∷ js "users" ∷ s ∷ []) i _ e (rw (split_id i h) refl) (λ c t. refl)
serve-call (users_op (UsersOp.remove i)) ((e, h), _) =
    one_id _ _ (λ s. js "api" ∷ js "users" ∷ s ∷ []) i _ e (rw (split_id i h) refl) (λ c t. refl)
serve-call (users_op (UsersOp.revoke i)) ((e, h), _) =
    one_id _ _ (λ s. js "api" ∷ js "sessions" ∷ s ∷ []) i _ e (rw (split_id i h) refl) (λ c t. refl)
serve-call (cred_op (CredOp.update i b)) ((e, h), _) =
    one_id _ _ (λ s. js "api" ∷ js "credentials" ∷ s ∷ []) i _ e (rw (split_id i h) refl)
      (λ c t. refl)
serve-call (cred_op (CredOp.remove i)) ((e, h), _) =
    one_id _ _ (λ s. js "api" ∷ js "credentials" ∷ s ∷ []) i _ e (rw (split_id i h) refl)
      (λ c t. refl)
serve-call (host_op (HostOp.get i)) ((e, h), _) =
    one_id _ _ (λ s. js "api" ∷ js "hosts" ∷ s ∷ []) i _ e (rw (split_id i h) refl) (λ c t. refl)
serve-call (host_op (HostOp.update i b)) ((e, h), _) =
    one_id _ _ (λ s. js "api" ∷ js "hosts" ∷ s ∷ []) i _ e (rw (split_id i h) refl) (λ c t. refl)
serve-call (host_op (HostOp.remove i)) ((e, h), _) =
    one_id _ _ (λ s. js "api" ∷ js "hosts" ∷ s ∷ []) i _ e (rw (split_id i h) refl) (λ c t. refl)
serve-call (host_op (HostOp.rename_group i b)) ((e, h), _) =
    one_id _ _ (λ s. js "api" ∷ js "groups" ∷ s ∷ []) i _ e (rw (split_id i h) refl) (λ c t. refl)
serve-call (host_op (HostOp.remove_group i)) ((e, h), _) =
    one_id _ _ (λ s. js "api" ∷ js "groups" ∷ s ∷ []) i _ e (rw (split_id i h) refl) (λ c t. refl)
serve-call (metrics_op (MetricsOp.host i k f t)) ((e, h), _) =
    one_id _ _ (λ s. js "api" ∷ js "metrics" ∷ js "hosts" ∷ s ∷ []) i _ e (rw (split_id i h) refl)
      (λ c t. refl)
serve-call (job_op (JobOp.update i b)) ((e, h), _) =
    one_id _ _ (λ s. js "api" ∷ js "jobs" ∷ s ∷ []) i _ e (rw (split_id i h) refl) (λ c t. refl)
serve-call (job_op (JobOp.remove i)) ((e, h), _) =
    one_id _ _ (λ s. js "api" ∷ js "jobs" ∷ s ∷ []) i _ e (rw (split_id i h) refl) (λ c t. refl)
serve-call (run_op (RunOp.get i)) ((e, h), _) =
    one_id _ _ (λ s. js "api" ∷ js "runs" ∷ s ∷ []) i _ e (rw (split_id i h) refl) (λ c t. refl)
serve-call (snippet_op (SnippetOp.update i b)) ((e, h), _) =
    one_id _ _ (λ s. js "api" ∷ js "snippets" ∷ s ∷ []) i _ e (rw (split_id i h) refl) (λ c t. refl)
serve-call (snippet_op (SnippetOp.remove i)) ((e, h), _) =
    one_id _ _ (λ s. js "api" ∷ js "snippets" ∷ s ∷ []) i _ e (rw (split_id i h) refl) (λ c t. refl)
serve-call (users_op (UsersOp.sessions i)) ((e, h), _) =
    one_id _ _ (λ s. js "api" ∷ js "users" ∷ s ∷ js "sessions" ∷ []) i _ e
      (rw (split_id_then i (js "sessions") h) refl) (λ c t. refl)
serve-call (host_op (HostOp.test i)) ((e, h), _) =
    one_id _ _ (λ s. js "api" ∷ js "hosts" ∷ s ∷ js "test" ∷ []) i _ e
      (rw (split_id_then i (js "test") h) refl) (λ c t. refl)
serve-call (host_op (HostOp.reset_key i)) ((e, h), _) =
    one_id _ _ (λ s. js "api" ∷ js "hosts" ∷ s ∷ js "reset-host-key" ∷ []) i _ e
      (rw (split_id_then i (js "reset-host-key") h) refl) (λ c t. refl)
serve-call (host_op (HostOp.facts i)) ((e, h), _) =
    one_id _ _ (λ s. js "api" ∷ js "hosts" ∷ s ∷ js "facts" ∷ []) i _ e
      (rw (split_id_then i (js "facts") h) refl) (λ c t. refl)
serve-call (agent_op (AgentOp.approve i)) ((e, h), _) =
    one_id _ _ (λ s. js "api" ∷ js "agents" ∷ s ∷ js "approve" ∷ []) i _ e
      (rw (split_id_then i (js "approve") h) refl) (λ c t. refl)
serve-call (agent_op (AgentOp.block i)) ((e, h), _) =
    one_id _ _ (λ s. js "api" ∷ js "agents" ∷ s ∷ js "block" ∷ []) i _ e
      (rw (split_id_then i (js "block") h) refl) (λ c t. refl)
serve-call (tunnel_op (TunnelOp.stop i)) ((e, h), _) =
    one_id _ _ (λ s. js "api" ∷ js "tunnels" ∷ s ∷ js "stop" ∷ []) i _ e
      (rw (split_id_then i (js "stop") h) refl) (λ c t. refl)
serve-call (run_op (RunOp.cancel i)) ((e, h), _) =
    one_id _ _ (λ s. js "api" ∷ js "runs" ∷ s ∷ js "cancel" ∷ []) i _ e
      (rw (split_id_then i (js "cancel") h) refl) (λ c t. refl)
serve-call (run_op (RunOp.retry i)) ((e, h), _) =
    one_id _ _ (λ s. js "api" ∷ js "runs" ∷ s ∷ js "retry-failed" ∷ []) i _ e
      (rw (split_id_then i (js "retry-failed") h) refl) (λ c t. refl)
serve-call (run_op (RunOp.output i t x n)) ((e, h), (k, _)) = output_found i t x n e h k
serve-call (status_op StatusOp.status) h = found_at _ _ _ _ refl refl
serve-call (auth_op (AuthOp.setup _ _ _)) h = found_at _ _ _ _ refl refl
serve-call (users_op UsersOp.list) h = found_at _ _ _ _ refl refl
serve-call (cred_op CredOp.list) h = found_at _ _ _ _ refl refl
serve-call (settings_op SettingsOp.get) h = found_at _ _ _ _ refl refl
serve-call (backup_op (BackupOp.«export» _)) h = found_at _ _ _ _ refl refl
serve-call (host_op (HostOp.list _)) h = found_at _ _ _ _ refl refl
serve-call (agent_op AgentOp.list) h = found_at _ _ _ _ refl refl
serve-call (tunnel_op TunnelOp.list) h = found_at _ _ _ _ refl refl
serve-call (fs_op (FsOp.list _ _)) h = found_at _ _ _ _ refl refl
serve-call (doctor_op DoctorOp.run) h = found_at _ _ _ _ refl refl
serve-call (exec_op (ExecOp.run _)) h = found_at _ _ _ _ refl refl
serve-call (job_op JobOp.list) h = found_at _ _ _ _ refl refl
serve-call (run_op (RunOp.list _ _)) h = found_at _ _ _ _ refl refl
serve-call (snippet_op SnippetOp.list) h = found_at _ _ _ _ refl refl
serve-call (audit_op (AuditOp.list _)) h = found_at _ _ _ _ refl refl
serve-call _ h = found_at _ _ _ _ refl refl

-- A role is told that it has a permission exactly if the routes that require it let the role through.
pub contains-permissions_for :
    (role : Text) (p : Permission)
    → contains (permission_name p) (permissions_for role) ≡ may role p
unfolding contains permissions_for ◌==◌
contains-permissions_for role read = ground arith
contains-permissions_for role exec = ground arith
contains-permissions_for role manage_inventory = ground arith
contains-permissions_for role audit = ground arith
contains-permissions_for role manage_users = ground arith
contains-permissions_for role owner = ground arith
