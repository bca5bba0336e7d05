-- ===== src/Api/Activity.antt =====
-- web/src/api/types.ts: runs, jobs, snippets, tunnels, audit entries and the self-check.
use bastiondeck.Prelude.{ℕ, Bool, Option, List, Text}
use bastiondeck.Prelude.Ints.{ℤ}
use bastiondeck.Prelude.Json.{Json}

pub record RunSummary : Type 0 where
  pub total : ℕ
  pub pending : ℕ
  pub running : ℕ
  pub success : ℕ
  pub failed : ℕ
  pub timeout : ℕ
  pub cancelled : ℕ
  pub lost : ℕ
  pub skipped : ℕ

pub record RunTarget : Type 0 where
  pub id : Text
  pub run_id : Text
  pub host_id : Text
  pub status : Text
  pub exit_code : Option ℤ
  pub started_at : Option Text
  pub ended_at : Option Text
  pub error_code : Option Text
  pub error_text : Option Text
  pub stdout_preview : Option Text
  pub stderr_preview : Option Text
  pub bytes_out : ℕ

pub record Run : Type 0 where
  pub id : Text
  pub job_id : Text
  pub trigger : Text
  pub status : Text
  pub started_at : Option Text
  pub ended_at : Option Text
  pub summary : RunSummary
  pub created_at : Text
  pub updated_at : Text
  pub targets : Option (List RunTarget)

pub data JobKind : Type 0 where
  adhoc scheduled : JobKind

pub record Job : Type 0 where
  pub id : Text
  pub kind : JobKind
  pub name : Text
  pub command : Text
  pub target_ids : List Text
  pub snippet_id : Option Text
  pub schedule_expr : Option Text
  pub enabled : Bool
  pub timeout_ms : ℕ
  pub concurrency : ℕ
  pub created_by : Option Text
  pub last_run_at : Option Text
  pub next_run_at : Option Text
  pub created_at : Text
  pub updated_at : Text

pub record Snippet : Type 0 where
  pub id : Text
  pub title : Text
  pub body : Text
  pub tags : Option (List Text)
  pub created_by : Text
  pub created_at : Text
  pub updated_at : Text

pub data TunnelKind : Type 0 where
  local remote : TunnelKind

pub record Tunnel : Type 0 where
  pub id : Text
  pub host_id : Text
  pub kind : TunnelKind
  pub local_host : Text
  pub local_port : ℕ
  pub remote_host : Text
  pub remote_port : ℕ
  pub started_by : Option Text
  pub status : Text
  pub started_at : Option Text
  pub stopped_at : Option Text
  pub last_error : Option Text

pub record AuditEntry : Type 0 where
  pub seq : Option ℕ
  pub event_id : Text
  pub at : Text
  pub actor_id : Option Text
  pub actor_name : Option Text
  pub action : Text
  pub object_type : Option Text
  pub object_id : Option Text
  pub result : Text
  pub detail : Option Json
  pub prev_hash : Option Text
  pub hash : Text
  pub ip : Option Text

pub record DoctorCheck : Type 0 where
  pub name : Text
  pub ok : Bool
  pub detail : Option Text

pub record DoctorReport : Type 0 where
  pub ok : Bool
  pub version : Text
  pub time : Text
  pub checks : List DoctorCheck
  pub coverage : Text
