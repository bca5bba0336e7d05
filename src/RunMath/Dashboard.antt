-- ===== src/RunMath/Dashboard.antt =====
-- The counters of the dashboard are sums over the runs, and account for every target.
use bastiondeck.Prelude.{ℕ, ◌+◌, List, [], ◌∷◌, All, ◌≡◌, arith}
use bastiondeck.Api.Activity.{Run, RunSummary}
use bastiondeck.RunMath.{Rollup, rollup_from, rollup_runs}
use bastiondeck.RunMath.Summary.{IsBalanced}

-- The sum of a figure of the summaries.
abbrev pub sum_of : (RunSummary → ℕ) → List Run → ℕ
sum_of f [] = 0
sum_of f (r ∷ rs) = f r.summary + sum_of f rs

abbrev IsRollup : Rollup → List Run → Rollup → Type 0
IsRollup a rs b =
    (b.success ≡ a.success + sum_of (λ s. s.success) rs)
    × (b.failed ≡ a.failed + sum_of (λ s. s.failed) rs)
    × (b.lost ≡ a.lost + sum_of (λ s. s.lost) rs)
    × (b.timeout ≡ a.timeout + sum_of (λ s. s.timeout) rs)
    × (b.running ≡ a.running + sum_of (λ s. s.running + s.pending) rs)
    × (b.total ≡ a.total + sum_of (λ s. s.total) rs)

rollup_from-IsRollup : (a : Rollup) (rs : List Run) → IsRollup a rs (rollup_from a rs)
unfolding rollup_from
rollup_from-IsRollup a [] = omega arith
rollup_from-IsRollup a (r ∷ rs) = omega (
  arith,
  rollup_from-IsRollup
      (record {
        success = a.success + r.summary.success;
        failed = a.failed + r.summary.failed;
        lost = a.lost + r.summary.lost;
        timeout = a.timeout + r.summary.timeout;
        running = a.running + (r.summary.running + r.summary.pending);
        total = a.total + r.summary.total;
      })
      rs,
)

sum_of-balanced :
    (rs : List Run)
    → All (λ r. IsBalanced r.summary) rs
    → sum_of (λ s. s.total) rs
      ≡ sum_of (λ s. s.success) rs
        + sum_of (λ s. s.failed) rs
        + sum_of (λ s. s.lost) rs
        + sum_of (λ s. s.timeout) rs
        + sum_of (λ s. s.running + s.pending) rs
        + sum_of (λ s. s.cancelled + s.skipped) rs
sum_of-balanced [] h = omega arith
sum_of-balanced (r ∷ rs) (b, h) = omega (arith, sum_of-balanced rs h)

-- If every summary is balanced, the total of the dashboard is the sum of its five other counters
-- and of the targets that were cancelled or skipped, which it does not show.
pub rollup_runs_balance :
    (rs : List Run)
    → All (λ r. IsBalanced r.summary) rs
    → (rollup_runs rs).total
      ≡ (rollup_runs rs).success
        + (rollup_runs rs).failed
        + (rollup_runs rs).lost
        + (rollup_runs rs).timeout
        + (rollup_runs rs).running
        + sum_of (λ s. s.cancelled + s.skipped) rs
unfolding rollup_runs
rollup_runs_balance rs h = omega (
  arith,
  sum_of-balanced rs h,
  rollup_from-IsRollup
      (record { success = 0; failed = 0; lost = 0; timeout = 0; running = 0; total = 0 }) rs,
)
