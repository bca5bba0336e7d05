-- ===== src/Server/StateMachine.antt =====
-- internal/jobs/statemachine.go: how the server aggregates and counts target states. The web
-- client repeats these rules in web/src/lib/runmath.ts.
pub mod Ladder
use bastiondeck.Prelude.{
  ℕ, ◌+◌, Bool, true, false, ◌&&◌, ◌||◌, not, List, [], ◌∷◌, Text, js, ◌==◌, length, ltb, eqb,
  if◌then◌else◌,
}
use bastiondeck.Api.Activity.{RunSummary}

-- The `switch` of `Aggregate` and `Summarise`.
unfoldable pub count : Text → RunSummary → RunSummary
unfolding ◌==◌
count s c =
    if s == js "pending"
    then record c { pending = c.pending + 1 }
    else if s == js "running"
    then record c { running = c.running + 1 }
    else if s == js "success"
    then record c { success = c.success + 1 }
    else if s == js "failed"
    then record c { failed = c.failed + 1 }
    else if s == js "timeout"
    then record c { timeout = c.timeout + 1 }
    else if s == js "cancelled"
    then record c { cancelled = c.cancelled + 1 }
    else if s == js "lost"
    then record c { lost = c.lost + 1 }
    else if s == js "skipped"
    then record c { skipped = c.skipped + 1 }
    else c

unfoldable pub count_all : RunSummary → List Text → RunSummary
unfolding count
count_all c [] = c
count_all c (s ∷ ss) = count_all (count s c) ss

abbrev pub no_counts : ℕ → RunSummary
no_counts n = record {
  total = n;
  pending = 0;
  running = 0;
  success = 0;
  failed = 0;
  timeout = 0;
  cancelled = 0;
  lost = 0;
  skipped = 0;
}

unfoldable pub summarise : List Text → RunSummary
unfolding count_all
summarise statuses = count_all (no_counts (length statuses)) statuses

-- The flag `allSuccess` after the loop.
unfoldable pub all_success : Bool → List Text → Bool
unfolding ◌==◌
all_success b [] = b
all_success b (s ∷ ss) =
    all_success (if not (s == js "success") && not (s == js "skipped") then false else b) ss

-- The final `switch` of `Aggregate`.
unfoldable pub verdict : RunSummary → Bool → Text
verdict c all =
    if ltb 0 c.pending || ltb 0 c.running
    then js "running"
    else if all
    then js "success"
    else if ltb 0 c.cancelled && eqb c.failed 0 && eqb c.timeout 0 && eqb c.lost 0
    then js "cancelled"
    else if ltb 0 c.timeout
    then js "timeout"
    else if ltb 0 c.failed
    then js "failed"
    else if ltb 0 c.lost
    then js "lost"
    else if ltb 0 c.cancelled
    then js "cancelled"
    else js "success"

unfoldable pub aggregate : List Text → Text
unfolding summarise all_success verdict
aggregate [] = js "success"
aggregate (s ∷ ss) = verdict (summarise (s ∷ ss)) (all_success true (s ∷ ss))
