-- ===== src/Server/StateMachine/Ladder.antt =====
-- The server's aggregate as a ladder of membership tests.
use bastiondeck.Prelude.{
  ℕ, Bool, true, false, ◌&&◌, ◌||◌, not, List, [], ◌∷◌, Text, js, ◌==◌, contains, length, ltb, All,
  ◌≡◌, refl, arith, if◌then◌else◌,
}
use bastiondeck.Api.Activity.{RunSummary}
use bastiondeck.RunMath.Status.{pending, success, skipped, name, IsKnown}
use bastiondeck.Server.StateMachine.{
  count, count_all, no_counts, summarise, all_success, verdict, aggregate,
}

-- A counter is positive after the loop exactly if it was before, or its state occurs.
record Counts (c : RunSummary) (ss : List Text) : Type 0 where
  pending_pos : ltb 0 (count_all c ss).pending ≡ (ltb 0 c.pending || contains (js "pending") ss)
  running_pos : ltb 0 (count_all c ss).running ≡ (ltb 0 c.running || contains (js "running") ss)
  failed_pos : ltb 0 (count_all c ss).failed ≡ (ltb 0 c.failed || contains (js "failed") ss)
  timeout_pos : ltb 0 (count_all c ss).timeout ≡ (ltb 0 c.timeout || contains (js "timeout") ss)
  cancelled_pos :
      ltb 0 (count_all c ss).cancelled ≡ (ltb 0 c.cancelled || contains (js "cancelled") ss)
  lost_pos : ltb 0 (count_all c ss).lost ≡ (ltb 0 c.lost || contains (js "lost") ss)

count_all-Counts : (c : RunSummary) (ss : List Text) → All IsKnown ss → Counts c ss
unfolding count_all count contains ◌==◌
count_all-Counts c [] h = ground arith
count_all-Counts c (s ∷ ss) ((pending, p), h) =
    simp p (ground (arith, count_all-Counts (count (name pending) c) ss h))
count_all-Counts c (s ∷ ss) ((e, p), h) =
    simp p (ground (arith, count_all-Counts (count (name e) c) ss h))

-- A state other than success and skipped occurs.
abbrev unsettled : List Text → Bool
unsettled ss =
    contains (js "pending") ss
    || contains (js "running") ss
    || contains (js "failed") ss
    || contains (js "timeout") ss
    || contains (js "cancelled") ss
    || contains (js "lost") ss

all_success-eq-unsettled :
    (b : Bool) (ss : List Text) → All IsKnown ss → all_success b ss ≡ (b && not (unsettled ss))
unfolding all_success contains ◌==◌
all_success-eq-unsettled b [] h = ground arith
all_success-eq-unsettled b (s ∷ ss) ((pending, p), h) =
    simp p (ground (arith, all_success-eq-unsettled false ss h))
all_success-eq-unsettled b (s ∷ ss) ((success, p), h) =
    simp p (ground (arith, all_success-eq-unsettled b ss h))
all_success-eq-unsettled b (s ∷ ss) ((skipped, p), h) =
    simp p (ground (arith, all_success-eq-unsettled b ss h))
all_success-eq-unsettled b (s ∷ ss) ((e, p), h) =
    simp p (ground (arith, all_success-eq-unsettled false ss h))

abbrev pub server_of : List Text → Text
server_of ss =
    if contains (js "pending") ss || contains (js "running") ss
    then js "running"
    else if contains (js "timeout") ss
    then js "timeout"
    else if contains (js "failed") ss
    then js "failed"
    else if contains (js "lost") ss
    then js "lost"
    else if contains (js "cancelled") ss
    then js "cancelled"
    else js "success"

verdict-eq-server_of :
    (n : ℕ) (ss : List Text)
    → All IsKnown ss
    → verdict (count_all (no_counts n) ss) (all_success true ss) ≡ server_of ss
unfolding verdict
verdict-eq-server_of n ss h =
    ground (arith, count_all-Counts (no_counts n) ss h, all_success-eq-unsettled true ss h)

-- Over the eight states the server's aggregate is running while a target is unfinished; then
-- timeout, failed, lost, cancelled, in this order; and success if none of these occurs.
pub aggregate-eq-server_of : (ss : List Text) → All IsKnown ss → aggregate ss ≡ server_of ss
unfolding aggregate summarise
aggregate-eq-server_of [] h = unfold contains in refl
aggregate-eq-server_of (s ∷ ss) h = verdict-eq-server_of (length (s ∷ ss)) (s ∷ ss) h
