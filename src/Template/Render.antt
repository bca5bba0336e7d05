-- ===== src/Template/Render.antt =====
-- Which variables a body requires, and which a rendering reports as missing.
use Prim.Native.Nat.{zero}
use bastiondeck.Prelude.{
  Bool, true, false, ◌&&◌, ◌||◌, Option, none, some, List, [], ◌∷◌, ◌++◌, Text, ◌==◌, ==_iff,
  contains, contains-add, add, add-HasNoRepeat, HasNoRepeat, All, ◌≡◌, ◌↔◌, refl, ap, ◌∙◌, arith,
}
use bastiondeck.Prelude.Sort.{contains-sort, sort-HasNoRepeat, sort-IsSorted, IsSorted}
use bastiondeck.Template.{
  Piece, lit, hole, pieces, names_from, required_variables, Vars, filled, Rendering, replace,
  render_from, render_template,
}

-- A piece has the name.
abbrev mentions : Text → List Piece → Bool
mentions a [] = false
mentions a (lit c ∷ ps) = mentions a ps
mentions a (hole whole name ∷ ps) = a == name || mentions a ps

contains-names_from :
    (a : Text) (found : List Text) (ps : List Piece)
    → contains a (names_from found ps) ≡ (contains a found || mentions a ps)
unfolding names_from
contains-names_from a found [] = ground arith
contains-names_from a found (lit c ∷ ps) = contains-names_from a found ps
contains-names_from a found (hole whole name ∷ ps) =
    ground (arith, contains-names_from a (add name found) ps, contains-add a name found)

names_from-HasNoRepeat :
    (found : List Text) (ps : List Piece) → HasNoRepeat found → HasNoRepeat (names_from found ps)
unfolding names_from
names_from-HasNoRepeat found [] h = h
names_from-HasNoRepeat found (lit c ∷ ps) h = names_from-HasNoRepeat found ps h
names_from-HasNoRepeat found (hole whole name ∷ ps) h =
    names_from-HasNoRepeat (add name found) ps (add-HasNoRepeat name found h)

-- The required variables are sorted, distinct, and exactly the names of the matches.
required_variables_lem :
    (body a : Text)
    → IsSorted (required_variables body)
      × HasNoRepeat (required_variables body)
      × (contains a (required_variables body) ≡ mentions a (pieces zero body))
unfolding required_variables
required_variables_lem body a = (
  sort-IsSorted (names_from [] (pieces zero body)),
  sort-HasNoRepeat _ (names_from-HasNoRepeat [] (pieces zero body) tt),
  contains-sort a (names_from [] (pieces zero body))
      ∙ (contains-names_from a [] (pieces zero body) ∙ unfold contains in refl),
)

abbrev pub is_none : Option Text → Bool
is_none none = true
is_none (some v) = false

contains-missing-replace :
    (vars : Vars) (a whole name : Text) (r : Rendering)
    → contains a (replace vars whole name r).missing
      ≡ (contains a r.missing || (a == name && is_none (filled vars a)))
unfolding replace
contains-missing-replace vars a whole name r =
    ground (arith, contains-add a name r.missing, ==_iff a name)

contains-missing-render_from :
    (vars : Vars) (a : Text) (r : Rendering) (ps : List Piece)
    → contains a (render_from vars r ps).missing
      ≡ (contains a r.missing || (mentions a ps && is_none (filled vars a)))
unfolding render_from
contains-missing-render_from vars a r [] = ground arith
contains-missing-render_from vars a r (lit c ∷ ps) =
    contains-missing-render_from vars a (record r { rendered = r.rendered ++ c ∷ [] }) ps
contains-missing-render_from vars a r (hole whole name ∷ ps) = ground (
  arith,
  contains-missing-render_from vars a (replace vars whole name r) ps,
  contains-missing-replace vars a whole name r,
)

-- A rendering reports as missing exactly the required variables that have no value or an empty
-- one.
pub contains-missing :
    (body a : Text) (vars : Vars)
    → contains a (render_template body vars).missing
      ≡ (contains a (required_variables body) && is_none (filled vars a))
unfolding render_template
contains-missing body a vars =
    contains-missing-render_from vars a (record { rendered = []; missing = [] }) (pieces zero body)
    ∙ rw (required_variables_lem body a).2 (unfold contains in refl)

replace-HasNoRepeat :
    (vars : Vars) (whole name : Text) (r : Rendering)
    → HasNoRepeat r.missing
    → HasNoRepeat (replace vars whole name r).missing
unfolding replace
replace-HasNoRepeat vars whole name r h = ground (arith, add-HasNoRepeat name r.missing h)

render_from-HasNoRepeat :
    (vars : Vars) (r : Rendering) (ps : List Piece)
    → HasNoRepeat r.missing
    → HasNoRepeat (render_from vars r ps).missing
unfolding render_from
render_from-HasNoRepeat vars r [] h = h
render_from-HasNoRepeat vars r (lit c ∷ ps) h =
    render_from-HasNoRepeat vars (record r { rendered = r.rendered ++ c ∷ [] }) ps h
render_from-HasNoRepeat vars r (hole whole name ∷ ps) h =
    render_from-HasNoRepeat vars (replace vars whole name r) ps
      (replace-HasNoRepeat vars whole name r h)

-- No variable is reported twice.
missing-HasNoRepeat : (body : Text) (vars : Vars) → HasNoRepeat (render_template body vars).missing
unfolding render_template
missing-HasNoRepeat body vars = render_from-HasNoRepeat vars _ (pieces zero body) tt

All-of_contains :
    (P : Text → Type 0) (xs : List Text) → ((a : Text) → contains a xs ≡ true → P a) → All P xs
unfolding contains
All-of_contains P [] h = tt
All-of_contains P (x ∷ xs) h =
    (h x (ground (arith, ==_iff x x)), All-of_contains P xs (λ a k. h a (ground arith)))

nil_of_contains : (xs : List Text) → ((a : Text) → contains a xs ≡ false) → xs ≡ []
unfolding contains
nil_of_contains [] h = refl
nil_of_contains (x ∷ xs) h = absurd (ground (arith, h x, ==_iff x x))

contains_of_All :
    (P : Text → Bool) (xs : List Text)
    → All (λ a. P a ≡ false) xs
    → (a : Text) → (contains a xs && P a) ≡ false
unfolding contains
contains_of_All P [] h a = refl
contains_of_All P (x ∷ xs) h a = ground (arith, contains_of_All P xs h.1 a, ==_iff a x)

-- Nothing is missing exactly if every required variable has a value that is not empty.
pub missing-eq-nil_iff :
    (body : Text) (vars : Vars)
    → ((render_template body vars).missing ≡ [])
      ↔ All (λ a. is_none (filled vars a) ≡ false) (required_variables body)
missing-eq-nil_iff body vars = (
  (λ e. All-of_contains _ _ (λ a k.
      let none_missing : contains a (render_template body vars).missing ≡ false =
        ap (contains a) e ∙ unfold contains in refl in
      ground (arith, contains-missing body a vars))),
  (λ h. nil_of_contains _ (λ a.
      contains-missing body a vars
      ∙ contains_of_All (λ n. is_none (filled vars n)) (required_variables body) h a)),
)
