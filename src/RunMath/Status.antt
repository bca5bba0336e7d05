-- ===== src/RunMath/Status.antt =====
-- The eight states that the server gives a target (internal/jobs/model.go), and their names.
use bastiondeck.Prelude.{Text, js, ◌≡◌}

pub data Status : Type 0 where
  pending running success failed timeout cancelled lost skipped : Status

abbrev pub name : Status → Text
name pending = js "pending"
name running = js "running"
name success = js "success"
name failed = js "failed"
name timeout = js "timeout"
name cancelled = js "cancelled"
name lost = js "lost"
name skipped = js "skipped"

abbrev pub IsKnown : Text → Type 0
IsKnown s = (e : Status) × (s ≡ name e)
