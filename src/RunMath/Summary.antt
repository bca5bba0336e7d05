-- ===== src/RunMath/Summary.antt =====
-- Summaries count each state, as the server's do, and roll up over runs.
use bastiondeck.Prelude.{
  ℕ, suc, ◌+◌, false, List, [], ◌∷◌, Text, js, ◌==◌, length, All, ◌≡◌, ◌≢◌, refl, ap, arith,
  if◌then◌else◌, ==_iff,
}
use bastiondeck.Api.Activity.{RunSummary, RunTarget}
use bastiondeck.RunMath.Status.{pending, name, IsKnown}
use bastiondeck.RunMath.{empty_summary, count_status, summarize_from, summarize}
use bastiondeck.RunMath.Aggregate.{statuses}
use bastiondeck.Server.StateMachine.{count, count_all, summarise}

count_status-eq-count : (s : Text) (c : RunSummary) → s ≢ js "total" → count_status s c ≡ count s c
unfolding count_status count
count_status-eq-count s c h =
    let other : s == js "total" ≡ false = ground (arith, ==_iff s (js "total")) in rw other

summarize_from-eq-count_all :
    (c : RunSummary) (ts : List RunTarget)
    → All (λ t. t.status ≢ js "total") ts
    → summarize_from c ts ≡ count_all c (statuses ts)
unfolding summarize_from count_all
summarize_from-eq-count_all c [] h = refl
summarize_from-eq-count_all c (t ∷ ts) (k, h) =
    rw (count_status-eq-count t.status c k) (summarize_from-eq-count_all (count t.status c) ts h)

length-statuses : (ts : List RunTarget) → length (statuses ts) ≡ length ts
length-statuses [] = refl
length-statuses (t ∷ ts) = ap suc (length-statuses ts)

-- Unless a status is spelled "total", which names a counter, the client's summary of the targets
-- is the summary that the server's `Summarise` makes of their states, unknown ones included.
pub summarize-eq-summarise :
    (ts : List RunTarget)
    → All (λ t. t.status ≢ js "total") ts
    → summarize ts ≡ summarise (statuses ts)
unfolding summarize summarise
summarize-eq-summarise ts h =
    rw length-statuses
      (summarize_from-eq-count_all (record empty_summary { total = length ts }) ts h)

-- How often a state occurs.
abbrev pub occurrences : Text → List Text → ℕ
occurrences a [] = 0
occurrences a (s ∷ ss) = (if a == s then 1 else 0) + occurrences a ss

abbrev pub HasCounts : RunSummary → RunSummary → List Text → Type 0
HasCounts c d ss =
    (d.total ≡ c.total)
    × (d.pending ≡ c.pending + occurrences (js "pending") ss)
    × (d.running ≡ c.running + occurrences (js "running") ss)
    × (d.success ≡ c.success + occurrences (js "success") ss)
    × (d.failed ≡ c.failed + occurrences (js "failed") ss)
    × (d.timeout ≡ c.timeout + occurrences (js "timeout") ss)
    × (d.cancelled ≡ c.cancelled + occurrences (js "cancelled") ss)
    × (d.lost ≡ c.lost + occurrences (js "lost") ss)
    × (d.skipped ≡ c.skipped + occurrences (js "skipped") ss)

summarize_from_counts :
    (c : RunSummary) (ts : List RunTarget)
    → All (λ t. IsKnown t.status) ts
    → HasCounts c (summarize_from c ts) (statuses ts)
unfolding summarize_from count_status ◌==◌
summarize_from_counts c [] h = omega arith
summarize_from_counts c (t ∷ ts) ((pending, p), h) =
    simp p (omega (arith, summarize_from_counts (count_status (name pending) c) ts h))
summarize_from_counts c (t ∷ ts) ((e, p), h) =
    simp p (omega (arith, summarize_from_counts (count_status (name e) c) ts h))

-- For targets in known states, every counter of the summary is the number of targets in its state.
pub summarize_counts :
    (ts : List RunTarget)
    → All (λ t. IsKnown t.status) ts
    → HasCounts (record empty_summary { total = length ts }) (summarize ts) (statuses ts)
unfolding summarize
summarize_counts ts h = summarize_from_counts (record empty_summary { total = length ts }) ts h

-- The eight states together make up the total.
abbrev pub IsBalanced : RunSummary → Type 0
IsBalanced s =
    s.total
    ≡ s.pending + s.running + s.success + s.failed + s.timeout + s.cancelled + s.lost + s.skipped

abbrev parts : RunSummary → ℕ
parts s =
    s.pending + s.running + s.success + s.failed + s.timeout + s.cancelled + s.lost + s.skipped

summarize_from-parts :
    (c : RunSummary) (ts : List RunTarget)
    → All (λ t. IsKnown t.status) ts
    → (parts (summarize_from c ts) ≡ parts c + length ts) × ((summarize_from c ts).total ≡ c.total)
unfolding summarize_from count_status ◌==◌
summarize_from-parts c [] h = omega arith
summarize_from-parts c (t ∷ ts) ((pending, p), h) =
    simp p (omega (arith, summarize_from-parts (count_status (name pending) c) ts h))
summarize_from-parts c (t ∷ ts) ((e, p), h) =
    simp p (omega (arith, summarize_from-parts (count_status (name e) c) ts h))

-- A summary of targets in known states is balanced.
summarize-IsBalanced :
    (ts : List RunTarget) → All (λ t. IsKnown t.status) ts → IsBalanced (summarize ts)
unfolding summarize
summarize-IsBalanced ts h =
    omega (arith, summarize_from-parts (record empty_summary { total = length ts }) ts h)
