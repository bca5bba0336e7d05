-- ===== src/RunMath.antt =====
-- web/src/lib/runmath.ts: the run-level status, summaries, progress and durations.
-- Time stamps are parsed by `Date`, a parameter here; floating point enters through `Double`.
pub mod Status
pub mod Aggregate
pub mod Mirror
pub mod Summary
pub mod Dashboard
pub mod Measures
pub mod Progress
pub mod Duration
use bastiondeck.Prelude.{
  ℕ, ◌+◌, Bool, true, false, ◌||◌, Option, none, some, List, [], ◌∷◌, Text, js, ◌==◌, contains,
  length, if◌then◌else◌,
}
use bastiondeck.Prelude.Ints.{ℤ, pos, negsuc, lt_ℤ}
use bastiondeck.Prelude.Objects.{Slot, own, inherited, absent, slot}
use bastiondeck.Api.Activity.{Run, RunSummary, RunTarget}

abbrev priority : List (Text × ℤ)
priority =
    (js "cancelled", pos 6)
    ∷ (js "timeout", pos 5)
    ∷ (js "failed", pos 4)
    ∷ (js "lost", pos 3)
    ∷ (js "running", pos 2)
    ∷ (js "pending", pos 1)
    ∷ (js "skipped", pos 0)
    ∷ (js "success", negsuc 0)
    ∷ []

-- `PRIORITY[status] ?? missing` as an operand of `>`: what is found on the prototype is no number.
unfoldable weight : Text → ℤ → Option ℤ
unfolding slot
weight status missing = elim (slot status priority) [
  | own p ↦ some p
  | inherited ↦ none
  | absent ↦ some missing
]

-- `a > b`, false where a side is not a number
abbrev greater : Option ℤ → Option ℤ → Bool
greater (some a) (some b) = lt_ℤ b a
greater none b = false
greater (some a) none = false

unfoldable pub outranks : Text → Text → Bool
unfolding weight
outranks status worst = greater (weight status (pos 4)) (weight worst (pos 0))

unfoldable pub aggregate_from : Text → List RunTarget → Text
unfolding outranks
aggregate_from worst [] = worst
aggregate_from worst (t ∷ ts) =
    aggregate_from (if outranks t.status worst then t.status else worst) ts

unfoldable pub aggregate_status : List RunTarget → Text
unfolding aggregate_from
aggregate_status [] = js "pending"
aggregate_status (t ∷ ts) = aggregate_from (js "success") (t ∷ ts)

abbrev pub empty_summary : RunSummary
empty_summary = record {
  total = 0;
  pending = 0;
  running = 0;
  success = 0;
  failed = 0;
  timeout = 0;
  cancelled = 0;
  lost = 0;
  skipped = 0;
}

-- `if (status in acc) acc[status] += 1`. A name of the prototype passes the test too, and the write
-- then leaves the nine counters as they are.
unfoldable pub count_status : Text → RunSummary → RunSummary
unfolding ◌==◌
count_status s acc =
    if s == js "total"
    then record acc { total = acc.total + 1 }
    else if s == js "pending"
    then record acc { pending = acc.pending + 1 }
    else if s == js "running"
    then record acc { running = acc.running + 1 }
    else if s == js "success"
    then record acc { success = acc.success + 1 }
    else if s == js "failed"
    then record acc { failed = acc.failed + 1 }
    else if s == js "timeout"
    then record acc { timeout = acc.timeout + 1 }
    else if s == js "cancelled"
    then record acc { cancelled = acc.cancelled + 1 }
    else if s == js "lost"
    then record acc { lost = acc.lost + 1 }
    else if s == js "skipped"
    then record acc { skipped = acc.skipped + 1 }
    else acc

unfoldable pub summarize_from : RunSummary → List RunTarget → RunSummary
unfolding count_status
summarize_from acc [] = acc
summarize_from acc (t ∷ ts) = summarize_from (count_status t.status acc) ts

unfoldable pub summarize : List RunTarget → RunSummary
unfolding summarize_from
summarize targets = summarize_from (record empty_summary { total = length targets }) targets

abbrev terminal : List Text
terminal =
    js "success" ∷ js "failed" ∷ js "timeout" ∷ js "cancelled" ∷ js "lost" ∷ js "skipped" ∷ []

unfoldable is_terminal : Text → Bool
unfolding contains ◌==◌
is_terminal status = contains status terminal

unfoldable is_live : Text → Bool
unfolding ◌==◌
is_live status = status == js "pending" || status == js "running"

pub record Rollup : Type 0 where
  pub success : ℕ
  pub failed : ℕ
  pub lost : ℕ
  pub timeout : ℕ
  pub running : ℕ
  pub total : ℕ

unfoldable pub rollup_from : Rollup → List Run → Rollup
rollup_from acc [] = acc
rollup_from acc (r ∷ rs) =
    rollup_from
      (record {
        success = acc.success + r.summary.success;
        failed = acc.failed + r.summary.failed;
        lost = acc.lost + r.summary.lost;
        timeout = acc.timeout + r.summary.timeout;
        running = acc.running + (r.summary.running + r.summary.pending);
        total = acc.total + r.summary.total;
      })
      rs

unfoldable pub rollup_runs : List Run → Rollup
unfolding rollup_from
rollup_runs =
    rollup_from (record { success = 0; failed = 0; lost = 0; timeout = 0; running = 0; total = 0 })
