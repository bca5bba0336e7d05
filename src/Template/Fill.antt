-- ===== src/Template/Fill.antt =====
-- What a rendering puts in.
use Prim.Native.Nat.{zero}
use mathlib.Core.List.{append_assoc, append-nil}
use bastiondeck.Prelude.{none, some, List, [], ◌∷◌, ◌++◌, Text, ◌≡◌, refl, sym, ap, ◌∙◌, arith}
use bastiondeck.Template.{
  Piece, lit, hole, pieces, Vars, lookup, filled, Rendering, replace, render_from, render_template,
}
use bastiondeck.Template.Pieces.{source, source-pieces}

-- The pieces with the values put in: a match without a value stays as it is.
abbrev pub fill : Vars → List Piece → Text
fill vars [] = []
fill vars (lit c ∷ ps) = c ∷ fill vars ps
fill vars (hole whole name ∷ ps) =
    elim (filled vars name) [ none ↦ whole | some v ↦ v ] ++ fill vars ps

rendered-replace :
    (vars : Vars) (whole name : Text) (r : Rendering)
    → (replace vars whole name r).rendered
      ≡ r.rendered ++ elim (filled vars name) [ none ↦ whole | some v ↦ v ]
unfolding replace
rendered-replace vars whole name r = ground arith

rendered-render_from :
    (vars : Vars) (r : Rendering) (ps : List Piece)
    → (render_from vars r ps).rendered ≡ r.rendered ++ fill vars ps
unfolding render_from
rendered-render_from vars r [] = sym (append-nil r.rendered)
rendered-render_from vars r (lit c ∷ ps) =
    rendered-render_from vars (record r { rendered = r.rendered ++ c ∷ [] }) ps
    ∙ append_assoc r.rendered (c ∷ []) (fill vars ps)
rendered-render_from vars r (hole whole name ∷ ps) =
    rendered-render_from vars (replace vars whole name r) ps
    ∙ (rw rendered-replace (append_assoc r.rendered _ (fill vars ps)))

-- A rendering is the body with each match replaced by the value of its variable, if that has one.
pub render_template-eq-fill :
    (body : Text) (vars : Vars)
    → (render_template body vars).rendered ≡ fill vars (pieces zero body)
unfolding render_template
render_template-eq-fill body vars = rendered-render_from vars _ (pieces zero body)

fill_nil : (ps : List Piece) → fill [] ps ≡ source ps
unfolding filled lookup
fill_nil [] = refl
fill_nil (lit c ∷ ps) = ap (λ r. c ∷ r) (fill_nil ps)
fill_nil (hole whole name ∷ ps) = ap (λ r. whole ++ r) (fill_nil ps)

-- With no variables given, a body renders to itself.
render_template_nil : (body : Text) → (render_template body []).rendered ≡ body
render_template_nil body =
    render_template-eq-fill body [] ∙ (fill_nil (pieces zero body) ∙ source-pieces body)
