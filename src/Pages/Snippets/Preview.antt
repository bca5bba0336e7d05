-- ===== src/Pages/Snippets/Preview.antt =====
-- The inputs of the preview against the variables that the wizard asks for.
use Prim.Native.Nat.{zero}
use bastiondeck.Prelude.{List, [], ◌∷◌, Text, add, HasNoRepeat, add-HasNoRepeat, ◌≡◌, refl, ap}
use bastiondeck.Prelude.Sort.{sort}
use bastiondeck.Template.{Piece, lit, hole, pieces, names_from, required_variables}
use bastiondeck.Pages.Snippets.{match_names, add_each, preview_names}

add_each-match_names :
    (found : List Text) (ps : List Piece) → add_each found (match_names ps) ≡ names_from found ps
unfolding match_names names_from
add_each-match_names found [] = refl
add_each-match_names found (lit c ∷ ps) = add_each-match_names found ps
add_each-match_names found (hole whole name ∷ ps) = add_each-match_names (add name found) ps

add_each-HasNoRepeat : (s ts : List Text) → HasNoRepeat s → HasNoRepeat (add_each s ts)
add_each-HasNoRepeat s [] h = h
add_each-HasNoRepeat s (t ∷ ts) h = add_each-HasNoRepeat (add t s) ts (add-HasNoRepeat t s h)

-- The preview of a snippet has one input for each variable that the body requires: the names are
-- distinct, and sorted they are those that the wizard asks for.
sort-preview_names :
    (body : Text)
    → HasNoRepeat (preview_names body) × (sort (preview_names body) ≡ required_variables body)
unfolding preview_names required_variables
sort-preview_names body = (
  add_each-HasNoRepeat [] (match_names (pieces zero body)) tt,
  ap sort (add_each-match_names [] (pieces zero body)),
)
