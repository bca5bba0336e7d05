-- ===== src/Pages/Wizard/Variables.antt =====
-- For which variables the wizard has an input, and which hosts are ticked.
use bastiondeck.Prelude.{
  true, false, not, none, some, List, [], ◌∷◌, Text, ◌==◌, ==_iff, ==_refl, contains, contains-add,
  contains-delete, HasNoRepeat, add-HasNoRepeat, delete-HasNoRepeat, is_empty, if◌then◌else◌, ◌≡◌,
  ◌≢◌, refl, ◌∙◌, arith, Bool-cases, Option-cases, inl, inr,
}
use bastiondeck.Api.Activity.{Snippet}
use bastiondeck.Hooks.{Outcome}
use bastiondeck.Endpoints.Calls.{Call}
use bastiondeck.Template.{Vars, lookup, with_var, filled, required_variables}
use bastiondeck.Template.Render.{contains-missing, missing-eq-nil_iff}
use bastiondeck.Pages.{calls_of}
use bastiondeck.Pages.Wizard.{
  Wizard, Loaded, find_snippet, var_names, pick_snippet, toggle, fill_in, launch,
}
use bastiondeck.Pages.Wizard.Launch.{IsReady, launch_iff}

-- Right after any choice in the list of snippets, one that is not found and none included, there is
-- an input for exactly the variables that the command requires, in their order.
var_names-pick_snippet :
    (d : Loaded) (id : Text) (w : Wizard)
    → var_names d (pick_snippet d id w) ≡ required_variables (pick_snippet d id w).command
unfolding var_names pick_snippet
var_names-pick_snippet d [] w = elim (Option-cases (find_snippet [] d.snippets)) [
  | inl e ↦ rw e refl
  | inr (s, e) ↦ rw e refl
]
var_names-pick_snippet d (c ∷ id) w = elim (Option-cases (find_snippet (c ∷ id) d.snippets)) [
  | inl e ↦ rw (e, e) refl
  | inr (s, e) ↦ rw (e, e) refl
]

lookup-with_var :
    (n v a : Text) (vars : Vars) → n == a ≡ false → lookup a (with_var n v vars) ≡ lookup a vars
unfolding lookup with_var
lookup-with_var n v a [] h = ground arith
lookup-with_var n v a ((j, w) ∷ vars) h = elim (Bool-cases (j == n)) [
  | inl e ↦ ground (arith, ==_iff j n)
  | inr e ↦ ground (arith, lookup-with_var n v a vars h)
]

filled-with_var :
    (n v a : Text) (vars : Vars) → n == a ≡ false → filled (with_var n v vars) a ≡ filled vars a
unfolding filled
filled-with_var n v a vars h = rw (filled, lookup-with_var n v a vars h) refl

-- The inputs are filled in, one after another.
abbrev pub fills : Loaded → List (Text × Text) → Wizard → Wizard
fills d [] w = w
fills d ((n, v) ∷ fs) w = fills d fs (fill_in d n v w)

-- A snippet with this body is chosen, and the command requires a variable that the body does not and
-- that has no value.
abbrev pub IsStuck : Loaded → Snippet → Text → Wizard → Type 0
IsStuck d s a w =
    (is_empty w.snippet_id ≡ false)
    × (find_snippet w.snippet_id d.snippets ≡ some s)
    × (contains a (required_variables s.body) ≡ false)
    × (contains a (required_variables w.command) ≡ true)
    × (filled w.vars a ≡ none)

fill_in-IsStuck :
    (d : Loaded) (s : Snippet) (a n v : Text) (w : Wizard)
    → IsStuck d s a w
    → IsStuck d s a (fill_in d n v w)
unfolding fill_in var_names
fill_in-IsStuck d s a n v w (h1, h2, h3, h4, h5) =
    elim (Bool-cases (contains n (required_variables s.body))) [
      | inr out ↦ rw (h1, h2, out) (h1, h2, h3, h4, h5)
      | inl at_body ↦
          let other : n == a ≡ false = ground (arith, ==_iff n a, h3, at_body) in
          rw (h1, h2, at_body) (h1, h2, h3, h4, filled-with_var n v a w.vars other ∙ h5)
    ]

fills-IsStuck :
    (d : Loaded) (s : Snippet) (a : Text) (fs : List (Text × Text)) (w : Wizard)
    → IsStuck d s a w
    → IsStuck d s a (fills d fs w)
fills-IsStuck d s a [] w h = h
fills-IsStuck d s a ((n, v) ∷ fs) w h =
    fills-IsStuck d s a fs (fill_in d n v w) (fill_in-IsStuck d s a n v w h)

nil_of_not : (cs : List Call) → (cs ≢ [] → ⊥) → cs ≡ []
nil_of_not [] h = refl
nil_of_not (c ∷ cs) h = absurd (h (λ e. cc))

not_ready : (d : Loaded) (s : Snippet) (a : Text) (w : Wizard) → IsStuck d s a w → IsReady d w → ⊥
unfolding contains
not_ready d s a w (_, _, _, h4, h5) (_, _, _, all_filled) =
    let none_missing = (missing-eq-nil_iff w.command w.vars).1 all_filled in
    let a_missing = rw (none_missing, h4, h5) at (contains-missing w.command a w.vars) in cc

-- If a snippet is chosen, and the command, edited since, requires a variable that the snippet does
-- not and that has no value yet, then however the inputs are filled in, the button makes no call.
pub launch_stuck :
    (d : Loaded) (o : Outcome Text) (s : Snippet) (a : Text) (w : Wizard) (fs : List (Text × Text))
    → IsStuck d s a w
    → calls_of (launch d o (fills d fs w)).1 ≡ []
launch_stuck d o s a w fs h = nil_of_not (calls_of (launch d o (fills d fs w)).1) (λ called.
    not_ready d s a (fills d fs w) (fills-IsStuck d s a fs w h)
      ((launch_iff d o (fills d fs w)).0 called))

-- A tick changes the choice of the host whose box it is and of no other, and the ids stay distinct.
contains-toggle :
    (id a : Text) (w : Wizard)
    → HasNoRepeat w.spec.picked
    → (contains a (toggle id w).spec.picked
        ≡ (if id == a then not (contains a w.spec.picked) else contains a w.spec.picked))
      × HasNoRepeat (toggle id w).spec.picked
unfolding toggle
contains-toggle id a w h = elim (Bool-cases (contains id w.spec.picked)) [
  | inl ticked ↦ rw ticked (
    ground (arith, contains-delete a id w.spec.picked, ==_iff id a, ticked),
    delete-HasNoRepeat id w.spec.picked h,
  )
  | inr clear ↦ rw clear (
    ground (arith, contains-add a id w.spec.picked, ==_iff id a, ==_iff a id, ==_refl id, clear),
    add-HasNoRepeat id w.spec.picked h,
  )
]
