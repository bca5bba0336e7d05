-- ===== src/Tests/Fixtures.antt =====
-- The values that the tests share.
use bastiondeck.Prelude.{false, Option, none, some, List, [], ◌∷◌, Text, js}
use bastiondeck.Api.Inventory.{admin, credential, Host, User}
use bastiondeck.Api.Activity.{RunTarget, RunSummary, Run, Snippet}

abbrev pub target_in : Text → RunTarget
target_in status = record {
  id = js "t1";
  run_id = js "r1";
  host_id = js "h1";
  status = status;
  exit_code = none;
  started_at = none;
  ended_at = none;
  error_code = none;
  error_text = none;
  stdout_preview = none;
  stderr_preview = none;
  bytes_out = 0;
}

-- A cancelled target beside one that succeeded and one that still runs.
abbrev pub mixed : List RunTarget
mixed = target_in (js "cancelled") ∷ target_in (js "success") ∷ target_in (js "running") ∷ []

abbrev pub half_done : RunSummary
half_done = record {
  total = 4;
  pending = 1;
  running = 1;
  success = 1;
  failed = 0;
  timeout = 0;
  cancelled = 0;
  lost = 0;
  skipped = 1;
}

abbrev pub one_run : Run
one_run = record {
  id = js "r1";
  job_id = js "j1";
  trigger = js "manual";
  status = js "running";
  started_at = none;
  ended_at = none;
  summary = half_done;
  created_at = js "2026-01-01T00:00:00Z";
  updated_at = js "2026-01-01T00:00:00Z";
  targets = some mixed;
}

abbrev pub host : Text → Option Text → Option (List Text) → Host
host id group_id tags = record {
  id = id;
  name = id;
  address = js "10.0.0.1";
  port = 22;
  username = js "root";
  credential_id = none;
  auth_kind = credential;
  agent_id = none;
  jump_host_id = none;
  group_id = group_id;
  tags = tags;
  notes = [];
  favorite = false;
  last_status = js "ok";
  known_host_key = none;
  known_host_key_type = none;
  first_seen_at = none;
  last_connected_at = none;
  options = none;
  created_at = js "2026-01-01T00:00:00Z";
  updated_at = js "2026-01-01T00:00:00Z";
}

abbrev pub fleet : List Host
fleet =
    host (js "h1") (some (js "g1")) (some (js "web" ∷ js "prod" ∷ []))
    ∷ host (js "h2") none (some (js "db" ∷ []))
    ∷ host (js "h3") (some (js "g1")) none
    ∷ []

abbrev pub ann : User
ann = record {
  id = js "u1";
  username = js "ann";
  display_name = js "Ann";
  role = admin;
  totp_enabled = false;
  disabled = false;
  must_change_password = false;
  last_login_at = none;
  created_at = js "2026-01-01T00:00:00Z";
  updated_at = js "2026-01-01T00:00:00Z";
}

abbrev pub restart : Snippet
restart = record {
  id = js "s1";
  title = js "restart";
  body = js "systemctl restart ${unit}";
  tags = none;
  created_by = js "u1";
  created_at = js "2026-01-01T00:00:00Z";
  updated_at = js "2026-01-01T00:00:00Z";
}
