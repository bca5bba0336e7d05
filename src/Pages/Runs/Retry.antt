-- ===== src/Pages/Runs/Retry.antt =====
-- When the page offers to retry a run, against what the server would retry.
use bastiondeck.Prelude.{
  Bool, true, false, ◌||◌, not, List, [], ◌∷◌, Text, js, ◌==◌, ==_sym, contains, All, ltb, ◌≡◌, ◌↔◌,
  refl, arith, if◌then◌else◌,
}
use bastiondeck.Api.Activity.{RunTarget}
use bastiondeck.RunMath.{summarize}
use bastiondeck.RunMath.Status.{IsKnown}
use bastiondeck.RunMath.Aggregate.{statuses}
use bastiondeck.RunMath.Summary.{occurrences, summarize_counts}
use bastiondeck.Server.Retries.{retried_hosts}
use bastiondeck.Pages.Runs.{may_retry}

occurrences_pos : (a : Text) (ss : List Text) → ltb 0 (occurrences a ss) ≡ contains a ss
unfolding contains
occurrences_pos a [] = refl
occurrences_pos a (s ∷ ss) = ground (arith, occurrences_pos a ss)

may_retry-summarize :
    (ts : List RunTarget)
    → All (λ t. IsKnown t.status) ts
    → may_retry false (summarize ts)
      ≡ (contains (js "failed") (statuses ts) || contains (js "lost") (statuses ts))
unfolding may_retry
may_retry-summarize ts h =
    let counts = summarize_counts ts h in
    ground (
      arith,
      counts,
      occurrences_pos (js "failed") (statuses ts),
      occurrences_pos (js "lost") (statuses ts),
    )

abbrev pub is_there : List Text → Bool
is_there [] = false
is_there (a ∷ as') = true

is_there_if :
    (a b c x y z : Bool) (host : Text) (hosts : List Text)
    → is_there hosts ≡ (x || y || z)
    → is_there (if a || b || c then host ∷ hosts else hosts) ≡ ((a || x) || (b || y) || (c || z))
is_there_if true b c x y z host hosts h = refl
is_there_if false true c x y z host hosts h = ground arith
is_there_if false false true x y z host hosts h = ground arith
is_there_if false false false x y z host hosts h = h

is_there-retried_hosts :
    (ts : List RunTarget)
    → is_there (retried_hosts ts) ≡ (
        contains (js "failed") (statuses ts)
        || contains (js "lost") (statuses ts)
        || contains (js "timeout") (statuses ts))
unfolding retried_hosts contains
is_there-retried_hosts [] = refl
is_there-retried_hosts (t ∷ ts) =
    rw (==_sym t.status (js "failed"), ==_sym t.status (js "lost"), ==_sym t.status (js "timeout"))
      (is_there_if (js "failed" == t.status) (js "lost" == t.status) (js "timeout" == t.status)
        (contains (js "failed") (statuses ts)) (contains (js "lost") (statuses ts))
        (contains (js "timeout") (statuses ts)) t.host_id (retried_hosts ts)
        (is_there-retried_hosts ts))

-- For a run that is over, with targets in known states, the page offers to retry exactly if the
-- server has a target to retry, save if there are timeouts and neither failures nor losses: then the
-- server would retry, and the page does not offer it.
pub may_retry-eq-is_there_iff :
    (ts : List RunTarget)
    → All (λ t. IsKnown t.status) ts
    → (may_retry false (summarize ts) ≡ is_there (retried_hosts ts)) ↔ (
        (contains (js "failed") (statuses ts)
          || contains (js "lost") (statuses ts)
          || not (contains (js "timeout") (statuses ts)))
        ≡ true)
may_retry-eq-is_there_iff ts h =
    rw (may_retry-summarize ts h, is_there-retried_hosts ts) (ground arith)
