-- ===== src/Tests/Bodies.antt =====
-- Templates, tags, modes and the snippets' pages.
use Prim.Native.Nat.{zero}
use bastiondeck.Prelude.{◌&&◌, List, [], ◌∷◌, Text, js, ◌==◌, contains, All, length, ◌≤◌, ◌≡◌, refl}
use bastiondeck.Template.{pieces, Vars, filled, required_variables, render_template}
use bastiondeck.Template.Render.{is_none, contains-missing}
use bastiondeck.Template.Fill.{fill, render_template-eq-fill}
use bastiondeck.Fields.{trim, parse_tags, show_tags}
use bastiondeck.Fields.Tags.{IsTag, parse_tags-show_tags}
use bastiondeck.Pages.Snippets.{new_draft, or_none, type_tags}
use bastiondeck.Pages.Snippets.TagInput.{length-type_tags}

abbrev body : Text
body = js "scp ${ file } ${host}:/srv/${file} $${"

abbrev vars : Vars
vars = (js "file", js "a.txt") ∷ (js "host", []) ∷ []

render_template-eq-fill_example :
    (render_template body vars).rendered ≡ fill vars (pieces zero body)
render_template-eq-fill_example = render_template-eq-fill body vars

contains-missing_example :
    contains (js "host") (render_template body vars).missing
    ≡ (contains (js "host") (required_variables body) && is_none (filled vars (js "host")))
contains-missing_example = contains-missing body (js "host") vars

render_template_run : (render_template body vars).rendered ≡ js "scp a.txt ${host}:/srv/a.txt $${"
unfolding render_template ◌==◌
render_template_run = refl

abbrev two_tags : List Text
two_tags = js "web" ∷ js "on call" ∷ []

two_tags-IsTag : All IsTag two_tags
unfolding trim
two_tags-IsTag = (
  (refl, refl, (refl, (refl, (refl, tt)))),
  ((refl, refl, (refl, (refl, (refl, (refl, (refl, (refl, (refl, tt)))))))), tt),
)

parse_tags-show_tags_example : parse_tags (show_tags two_tags) ≡ two_tags
parse_tags-show_tags_example = parse_tags-show_tags two_tags two_tags-IsTag

length-type_tags_example : length (or_none (type_tags (js "a,b") new_draft).tags) ≤ 1
length-type_tags_example = length-type_tags (js "a,b")

type_tags_two : or_none (type_tags (js "a,b") new_draft).tags ≡ js "ab" ∷ []
unfolding type_tags parse_tags show_tags
type_tags_two = refl
