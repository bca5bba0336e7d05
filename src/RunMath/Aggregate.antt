-- ===== src/RunMath/Aggregate.antt =====
-- The run-level status is the most severe state among the targets.
use bastiondeck.Prelude.{
  List, [], ◌∷◌, map, Text, js, ◌==◌, contains, All, ◌≡◌, ◌≢◌, refl, sym, ◌∙◌, arith, if◌then◌else◌,
  ◌↔◌,
}
use bastiondeck.Api.Activity.{RunTarget}
use bastiondeck.RunMath.Status.{
  Status, pending, running, success, failed, timeout, cancelled, lost, skipped, name, IsKnown,
}
use bastiondeck.RunMath.{outranks, aggregate_from, aggregate_status}

abbrev pub statuses : List RunTarget → List Text
statuses = map (λ (t : RunTarget). t.status)

-- The order of severity, written as a ladder of membership tests.
abbrev pub worst_of : List Text → Text
worst_of ss =
    if contains (js "cancelled") ss
    then js "cancelled"
    else if contains (js "timeout") ss
    then js "timeout"
    else if contains (js "failed") ss
    then js "failed"
    else if contains (js "lost") ss
    then js "lost"
    else if contains (js "running") ss
    then js "running"
    else if contains (js "pending") ss
    then js "pending"
    else if contains (js "skipped") ss
    then js "skipped"
    else js "success"

worst_of-step :
    (w s : Status) (ss : List Text)
    → worst_of ((if outranks (name s) (name w) then name s else name w) ∷ ss)
      ≡ worst_of (name w ∷ name s ∷ ss)
unfolding outranks contains
worst_of-step pending pending ss = refl
worst_of-step running pending ss = refl
worst_of-step success pending ss = refl
worst_of-step failed pending ss = refl
worst_of-step timeout pending ss = refl
worst_of-step cancelled pending ss = refl
worst_of-step lost pending ss = refl
worst_of-step skipped pending ss = refl
worst_of-step _ _ ss = refl

-- For a known pair the loop keeps a known state.
worse : Status → Status → Status
unfolding outranks
worse w s = if outranks (name s) (name w) then s else w

name-worse :
    (w s : Status) → (if outranks (name s) (name w) then name s else name w) ≡ name (worse w s)
unfolding worse
name-worse w s = ground arith

worst_of_one : (w : Status) → worst_of (name w ∷ []) ≡ name w
unfolding contains ◌==◌
worst_of_one pending = refl
worst_of_one _ = refl

aggregate_from-eq-worst_of :
    (w : Status) (ts : List RunTarget)
    → All (λ t. IsKnown t.status) ts
    → aggregate_from (name w) ts ≡ worst_of (name w ∷ statuses ts)
unfolding aggregate_from
aggregate_from-eq-worst_of w [] _ = sym (worst_of_one w)
aggregate_from-eq-worst_of w (t ∷ ts) ((e, p), h) = simp p (
    rw name-worse (
      aggregate_from-eq-worst_of (worse w e) ts h
      ∙ rw (← name-worse w e) (worst_of-step w e (statuses ts))))

-- Leading successes do not change the ladder.
worst_of-success : (ss : List Text) → worst_of (js "success" ∷ ss) ≡ worst_of ss
unfolding contains ◌==◌
worst_of-success ss = refl

-- If every target has one of the server's eight states, and there is a target, the aggregate is
-- the most severe state present: cancelled, timeout, failed, lost, running, pending, skipped,
-- success, in this order.
pub aggregate_status-eq-worst_of :
    (ts : List RunTarget)
    → All (λ t. IsKnown t.status) ts
    → ts ≢ []
    → aggregate_status ts ≡ worst_of (statuses ts)
unfolding aggregate_status
aggregate_status-eq-worst_of [] h k = absurd (k refl)
aggregate_status-eq-worst_of (t ∷ ts) h k =
    aggregate_from-eq-worst_of success (t ∷ ts) h ∙ worst_of-success (statuses (t ∷ ts))

abbrev pub IsSuccess : RunTarget → Type 0
IsSuccess t = t.status ≡ js "success"

worst_of-ne-success :
    (s : Status) (ss : List Text) → s ≢ success → worst_of (name s ∷ ss) ≢ js "success"
unfolding contains ◌==◌
worst_of-ne-success success ss h e = h refl
worst_of-ne-success _ ss h e = ground arith

worst_of-eq-IsSuccess :
    (ts : List RunTarget)
    → All (λ t. IsKnown t.status) ts
    → worst_of (statuses ts) ≡ js "success"
    → All IsSuccess ts
worst_of-eq-IsSuccess [] h e = tt
worst_of-eq-IsSuccess (t ∷ ts) ((success, p), h) e =
    (p, worst_of-eq-IsSuccess ts h (sym (worst_of-success (statuses ts)) ∙ simp p at e))
worst_of-eq-IsSuccess (t ∷ ts) ((s, p), h) e =
    absurd (worst_of-ne-success s (statuses ts) (cc) (simp p at e))

worst_of_successes :
    (ts : List RunTarget) → All IsSuccess ts → worst_of (statuses ts) ≡ js "success"
worst_of_successes [] h = unfold contains in refl
worst_of_successes (t ∷ ts) (p, h) =
    simp p (worst_of-success (statuses ts) ∙ worst_of_successes ts h)

-- A run with targets in known states is a success exactly when every target is.
aggregate_status-eq-IsSuccess_iff :
    (ts : List RunTarget)
    → All (λ t. IsKnown t.status) ts
    → ts ≢ []
    → (aggregate_status ts ≡ js "success") ↔ All IsSuccess ts
aggregate_status-eq-IsSuccess_iff ts h k =
    let same = aggregate_status-eq-worst_of ts h k in
    (λ e. worst_of-eq-IsSuccess ts h (sym same ∙ e), λ a. same ∙ worst_of_successes ts a)
