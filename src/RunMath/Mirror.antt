-- ===== src/RunMath/Mirror.antt =====
-- Where the client's aggregate agrees with the server's, of which it is meant to be a copy.
use bastiondeck.Prelude.{
  Bool, true, ◌&&◌, ◌||◌, not, List, [], ◌∷◌, Text, js, contains, All, ◌≡◌, ◌≢◌, ◌↔◌, arith,
  if◌then◌else◌,
}
use bastiondeck.Api.Activity.{RunTarget}
use bastiondeck.RunMath.Status.{IsKnown}
use bastiondeck.RunMath.{aggregate_status}
use bastiondeck.RunMath.Aggregate.{statuses, worst_of, aggregate_status-eq-worst_of}
use bastiondeck.Server.StateMachine.{aggregate}
use bastiondeck.Server.StateMachine.Ladder.{server_of, aggregate-eq-server_of}

abbrev broken : List Text → Bool
broken ss = contains (js "timeout") ss || contains (js "failed") ss || contains (js "lost") ss

-- Both name the same state: while a target is unfinished, if one runs and none has ended badly or
-- was cancelled; after that, if no target was skipped without a worse one, or none was cancelled
-- beside a timeout, failure or loss.
abbrev pub agrees : List Text → Bool
agrees ss =
    if contains (js "pending") ss || contains (js "running") ss
    then contains (js "running") ss && not (broken ss || contains (js "cancelled") ss)
    else if broken ss
    then not (contains (js "cancelled") ss)
    else contains (js "cancelled") ss || not (contains (js "skipped") ss)

worst_of-eq-server_of_iff : (ss : List Text) → (worst_of ss ≡ server_of ss) ↔ (agrees ss ≡ true)
worst_of-eq-server_of_iff ss = ground arith

statuses-IsKnown :
    (ts : List RunTarget) → All (λ t. IsKnown t.status) ts → All IsKnown (statuses ts)
statuses-IsKnown [] h = tt
statuses-IsKnown (t ∷ ts) (k, h) = (k, statuses-IsKnown ts h)

-- For a run with targets, all in known states, the client's and the server's aggregate are the same
-- exactly if `agrees` holds of the states.
pub aggregate_status-eq-aggregate_iff :
    (ts : List RunTarget)
    → All (λ t. IsKnown t.status) ts
    → ts ≢ []
    → (aggregate_status ts ≡ aggregate (statuses ts)) ↔ (agrees (statuses ts) ≡ true)
aggregate_status-eq-aggregate_iff ts h k =
    rw
      (
        aggregate_status-eq-worst_of ts h k,
        aggregate-eq-server_of (statuses ts) (statuses-IsKnown ts h),
      )
      (worst_of-eq-server_of_iff (statuses ts))
