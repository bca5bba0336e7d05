-- ===== src/Tests/Runs.antt =====
-- Runs: aggregates, summaries, the dashboard, progress, durations and the retry of a run.
use native.Mathlib.Nat.{le-div_iff_mul-le, div-mul-le_self, mul-div_right}
use bastiondeck.Prelude.{
  ℕ, ◌+◌, ◌*◌, ◌/◌, ◌≤◌, ◌<◌, true, false, not, ◌||◌, some, List, [], ◌∷◌, ◌++◌, js, contains, All,
  ◌≡◌, ◌≢◌, ◌↔◌, refl, arith,
}
use bastiondeck.Prelude.Decimal.{show}
use bastiondeck.Api.Activity.{RunTarget}
use bastiondeck.RunMath.{aggregate_status, summarize, rollup_runs}
use bastiondeck.RunMath.Status.{timeout, cancelled, running, success, IsKnown}
use bastiondeck.RunMath.Aggregate.{statuses, worst_of, aggregate_status-eq-worst_of}
use bastiondeck.RunMath.Mirror.{agrees, aggregate_status-eq-aggregate_iff}
use bastiondeck.RunMath.Summary.{summarize-eq-summarise}
use bastiondeck.RunMath.Dashboard.{sum_of, rollup_runs_balance}
use bastiondeck.RunMath.Measures.{Double, progress_pct, minutes_of, fmt_duration}
use bastiondeck.RunMath.Duration.{fmt_duration-m60s}
use bastiondeck.Server.StateMachine.{aggregate, summarise}
use bastiondeck.Server.Retries.{retried_hosts}
use bastiondeck.Pages.Runs.{may_retry}
use bastiondeck.Pages.Runs.Retry.{is_there, may_retry-eq-is_there_iff}
use bastiondeck.Tests.Fixtures.{target_in, mixed, half_done, one_run}

aggregate_status-mixed : aggregate_status mixed ≡ js "cancelled"
unfolding aggregate_status
aggregate_status-mixed = refl

aggregate-mixed : aggregate (statuses mixed) ≡ js "running"
unfolding aggregate
aggregate-mixed = refl

mixed-IsKnown : All (λ t. IsKnown t.status) mixed
mixed-IsKnown = ((cancelled, refl), ((success, refl), ((running, refl), tt)))

mixed_there : mixed ≢ []
mixed_there e = cc

mixed-NoTotal : All (λ t. t.status ≢ js "total") mixed
mixed-NoTotal = ((λ e. cc), ((λ e. cc), ((λ e. cc), tt)))

aggregate_status-eq-worst_of_example : aggregate_status mixed ≡ worst_of (statuses mixed)
aggregate_status-eq-worst_of_example = aggregate_status-eq-worst_of mixed mixed-IsKnown mixed_there

aggregate_status-eq-aggregate_iff_example :
    (aggregate_status mixed ≡ aggregate (statuses mixed)) ↔ (agrees (statuses mixed) ≡ true)
aggregate_status-eq-aggregate_iff_example =
    aggregate_status-eq-aggregate_iff mixed mixed-IsKnown mixed_there

summarize-eq-summarise_example : summarize mixed ≡ summarise (statuses mixed)
summarize-eq-summarise_example = summarize-eq-summarise mixed mixed-NoTotal

rollup_runs_balance_example :
    (rollup_runs (one_run ∷ [])).total
    ≡ (rollup_runs (one_run ∷ [])).success
      + (rollup_runs (one_run ∷ [])).failed
      + (rollup_runs (one_run ∷ [])).lost
      + (rollup_runs (one_run ∷ [])).timeout
      + (rollup_runs (one_run ∷ [])).running
      + sum_of (λ s. s.cancelled + s.skipped) (one_run ∷ [])
rollup_runs_balance_example = rollup_runs_balance (one_run ∷ []) (refl, tt)

-- Quotients of whole numbers, rounded down.
exact_mono : (a b c : ℕ) → a ≤ b → 0 < c → (a * 100) / c ≤ (b * 100) / c
exact_mono a b c p q = (le-div_iff_mul-le q).1 (omega (arith, div-mul-le_self (a * 100) c))

exact_full : (c : ℕ) → 0 < c → (c * 100) / c ≡ 100
exact_full c q = mul-div_right 100 q

abbrev exact : Double
exact = record {
  Number = ℕ × ℕ;
  div = λ a c. (a, c);
  times = λ x k. (x.0 * k, x.1);
  round = λ x. x.0 / x.1;
  mono = λ a b c p small q large. exact_mono a b c p q;
  full = λ c q large. exact_full c q;
}

progress_pct_half : progress_pct exact half_done ≡ 50
unfolding progress_pct
progress_pct_half = refl

fmt_duration-m60s_example :
    fmt_duration (λ a b k. []) (some 119700) ≡ show (minutes_of 119700) ++ js "m60s"
fmt_duration-m60s_example = fmt_duration-m60s (λ a b k. []) 119700 (omega arith) (omega arith)

fmt_duration_two_minutes : fmt_duration (λ a b k. []) (some 119700) ≡ js "1m60s"
unfolding fmt_duration minutes_of show
fmt_duration_two_minutes = refl

abbrev late : List RunTarget
late = target_in (js "timeout") ∷ target_in (js "success") ∷ []

may_retry-eq-is_there_iff_example :
    (may_retry false (summarize late) ≡ is_there (retried_hosts late)) ↔ (
      (contains (js "failed") (statuses late)
        || contains (js "lost") (statuses late)
        || not (contains (js "timeout") (statuses late)))
      ≡ true)
may_retry-eq-is_there_iff_example =
    may_retry-eq-is_there_iff late ((timeout, refl), ((success, refl), tt))
