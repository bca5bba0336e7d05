-- ===== src/Views/Served/Runs.antt =====
-- The list of the runs, whose buttons do not ask what the user may do.
use bastiondeck.Prelude.{
  true, false, Option, none, some, List, [], ◌∷◌, ◌++◌, Text, All, ◌≡◌, refl, any, ◌↔◌, ◌⊎◌, inl,
  inr, Bool-cases, arith, if◌then◌else◌,
}
use bastiondeck.Api.Activity.{Run}
use bastiondeck.Endpoints.Operations.{Operation, run_op}
use bastiondeck.Endpoints.Work.{RunOp}
use bastiondeck.Hooks.Async.{View}
use bastiondeck.Pages.Runs.{listed, may_cancel}
use bastiondeck.Server.Routes
use bastiondeck.Server.Routes.{may, route_of}
use bastiondeck.Views.{Dates, asked, each, only_if, error_box, or_nil}
use bastiondeck.Views.Runs.{run_row, listed_rows, runs_view}
use bastiondeck.Views.Served.Parts.{Serves, asked-append}

asked-error_box : (m : Option Text) → asked (error_box m) ≡ []
unfolding asked
asked-error_box none = refl
asked-error_box (some []) = refl
asked-error_box (some (c ∷ s)) = refl

asked-runs_view :
    (dates : Dates) (wanted : Text) (v : View (List Run))
    → v.loading ≡ false
    → asked (runs_view dates wanted v) ≡ asked (listed_rows dates (listed wanted (or_nil v.value)))
unfolding runs_view asked each
asked-runs_view dates wanted v h = rw (h, asked-append, asked-append, asked-error_box v.error) refl

-- The cancellations that the list offers
abbrev cancels : List Run → List Operation
cancels [] = []
cancels (r ∷ rs) = if may_cancel r then run_op (RunOp.cancel r.id) ∷ cancels rs else cancels rs

module _ (dates : Dates) where
  asked-run_row :
      (r : Run) (os : List Operation)
      → asked (run_row dates r) ++ os
        ≡ (if may_cancel r then run_op (RunOp.cancel r.id) ∷ os else os)
  unfolding asked only_if
  asked-run_row r os = elim (Bool-cases (may_cancel r)) [
    | inl e ↦ rw (e) refl
    | inr e ↦ rw (e) refl
  ]

  asked-each_row : (rs : List Run) → asked (each (run_row dates) rs) ≡ cancels rs
  unfolding asked each
  asked-each_row [] = refl
  asked-each_row (r ∷ rs) =
      rw (asked-append (run_row dates r) (each (run_row dates) rs), asked-each_row rs)
        (asked-run_row r (cancels rs))

  asked-listed_rows : (rs : List Run) → asked (listed_rows dates rs) ≡ cancels rs
  unfolding asked
  asked-listed_rows [] = refl
  asked-listed_rows (r ∷ rs) = asked-each_row (r ∷ rs)

module _ (role : Text) where
  cancels-served :
      (rs : List Run)
      → (may role Routes.exec ≡ true) ⊎ (any may_cancel rs ≡ false)
      → All (Serves role) (cancels rs)
  unfolding route_of
  cancels-served [] h = tt
  cancels-served (r ∷ rs) h = elim (Bool-cases (may_cancel r)) [
    | inl e ↦ rw e (elim h [
      | inl may_exec ↦ (may_exec, cancels-served rs (inl may_exec))
      | inr k ↦ absurd (ground arith)
    ])
    | inr e ↦
        rw e
          (cancels-served rs (elim h [ inl may_exec ↦ inl may_exec | inr k ↦ inr (ground arith) ]))
  ]

  served-cancels :
      (rs : List Run)
      → All (Serves role) (cancels rs)
      → (may role Routes.exec ≡ true) ⊎ (any may_cancel rs ≡ false)
  unfolding route_of
  served-cancels [] h = inr refl
  served-cancels (r ∷ rs) h = elim (Bool-cases (may_cancel r)) [
    | inl e ↦ inl (rw e at h).0
    | inr e ↦ elim (served-cancels rs (rw e at h)) [
      | inl may_exec ↦ inl may_exec
      | inr k ↦ inr (ground arith)
    ]
  ]

-- Once the runs have been read, every call that the list of them offers is served exactly if the role
-- may execute or none of the runs listed can be cancelled.
pub runs_view-served_iff :
    (role : Text) (dates : Dates) (wanted : Text) (v : View (List Run))
    → v.loading ≡ false
    → All (Serves role) (asked (runs_view dates wanted v))
      ↔ ((may role Routes.exec ≡ true) ⊎ (any may_cancel (listed wanted (or_nil v.value)) ≡ false))
runs_view-served_iff role dates wanted v h =
    rw (asked-runs_view dates wanted v h, asked-listed_rows dates (listed wanted (or_nil v.value)))
      (
        served-cancels role (listed wanted (or_nil v.value)),
        cancels-served role (listed wanted (or_nil v.value)),
      )
