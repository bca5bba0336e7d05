-- ===== src/Views/Served/Watching.antt =====
-- The pages of the runs, for who may execute.
use bastiondeck.Prelude.{true, Option, none, some, List, [], ◌∷◌, Text, All, ◌≡◌}
use bastiondeck.Api.Activity.{Run, RunTarget}
use bastiondeck.Hooks.Async.{View}
use bastiondeck.Server.Routes
use bastiondeck.Server.Routes.{may, route_of}
use bastiondeck.Views.{Dates}
use bastiondeck.Views.Runs.{
  listed_rows, runs_view, RunAnswer, RunDetail, output_load, run_loads, run_buttons, error_line,
  error_of, run_shown, shown_or, run_view,
}
use bastiondeck.Views.Served.Parts.{Serves, IsServed, nil, cons, IsServed-each, IsServed-if, parts}

module _ (role : Text) where
  output-served :
      (id : Text) (p : RunDetail) (o : Option Text)
      → may role Routes.read ≡ true
      → All (Serves role) (output_load id p o)
  unfolding route_of
  output-served id p none reads = tt
  output-served id p (some []) reads = tt
  output-served id p (some (c ∷ t)) reads = (reads, tt)

  pub run_loads-served :
      (id : Text) (p : RunDetail) → may role Routes.read ≡ true → All (Serves role) (run_loads id p)
  unfolding run_loads route_of
  run_loads-served id p reads = (reads, (reads, output-served id p _ reads))

  module _ (dates : Dates) (may_exec : may role Routes.exec ≡ true) where
    listed_rows-IsServed : (rs : List Run) → IsServed role (listed_rows dates rs)
    unfolding route_of
    listed_rows-IsServed [] = cons tt nil
    listed_rows-IsServed (r ∷ rs) =
        IsServed-each (r ∷ rs) (λ a. search (parts, tt, may_exec) depth 30)

    -- All that the list of the runs asks for is served to who may execute.
    pub runs_view-IsServed :
        (wanted : Text) (v : View (List Run)) → IsServed role (runs_view dates wanted v)
    unfolding runs_view
    runs_view-IsServed wanted v =
        search (parts, tt, IsServed-each, IsServed-if, listed_rows-IsServed) depth 30

    run_buttons-IsServed : (id : Text) (a : RunAnswer) → IsServed role (run_buttons id a)
    unfolding route_of
    run_buttons-IsServed id a = search (parts, tt, may_exec) depth 30

    error_line-IsServed : (code o : Option Text) → IsServed role (error_line code o)
    error_line-IsServed code none = nil
    error_line-IsServed code (some []) = nil
    error_line-IsServed code (some (c ∷ s)) = cons tt nil

    error_of-IsServed : (o : Option RunTarget) → IsServed role (error_of o)
    error_of-IsServed none = nil
    error_of-IsServed (some t) = error_line-IsServed t.error_code t.error_text

    run_shown-IsServed :
        (id : Text) (p : RunDetail) (a : RunAnswer) → IsServed role (run_shown dates id p a)
    run_shown-IsServed id p a =
        search (parts, tt, IsServed-each, run_buttons-IsServed, error_of-IsServed) depth 40

    shown_or-IsServed :
        (id : Text) (p : RunDetail) (o : Option RunAnswer) → IsServed role (shown_or dates id p o)
    shown_or-IsServed id p none = search (parts, tt, IsServed-if) depth 20
    shown_or-IsServed id p (some a) = run_shown-IsServed id p a

    -- All that the page of a run asks for is served to who may execute.
    pub run_view-IsServed : (id : Text) (p : RunDetail) → IsServed role (run_view dates id p)
    unfolding run_view
    run_view-IsServed id p = shown_or-IsServed id p p.run.value
