-- ===== src/Pages/Snippets.antt =====
-- web/src/pages/Snippets.tsx: the form for a snippet, its input of tags, and the preview.
pub mod TagInput
pub mod Preview
use bastiondeck.Prelude.{
  ℕ, Bool, true, false, ◌||◌, Option, none, some, List, [], ◌∷◌, ◌++◌, Text, js, add, is_empty,
  if◌then◌else◌,
}
use bastiondeck.Prelude.Json.{Json, null, str, arr}
use bastiondeck.Api.Activity.{Snippet}
use bastiondeck.Hooks.{Outcome, ok, fail}
use bastiondeck.Toast.{success, error}
use bastiondeck.Endpoints.Calls.{Call, json}
use bastiondeck.Endpoints.Work.{SnippetOp, snippet_call}
use bastiondeck.Template.{Piece, lit, hole, pieces, Vars, with_var}
use bastiondeck.Fields.{parse_tags, show_tags}
use bastiondeck.Pages.{Effect, calls, says, reloads, attempt, confirmed}
use bastiondeck.Pages.Wizard.{is_blank, items_of, vars_of, commas}
use Prim.Native.Nat.{zero}

-- `editing`: a new draft has a title, a body and tags, a stored snippet an id too; `none` for the
-- tags is `null`.
pub record Draft : Type 0 where
  pub id : Option Text
  pub title : Text
  pub body : Text
  pub tags : Option (List Text)

abbrev pub new_draft : Draft
new_draft = record { id = none; title = []; body = []; tags = some [] }

abbrev draft_of : Snippet → Draft
draft_of s = record { id = some s.id; title = s.title; body = s.body; tags = s.tags }

-- `editing.tags ?? []`
abbrev pub or_none : Option (List Text) → List Text
or_none none = []
or_none (some ts) = ts

abbrev tags_json : Option (List Text) → Json
tags_json none = null
tags_json (some ts) = arr (items_of ts)

abbrev body_of : Draft → Json → Json
body_of d tags = json (
    (js "title", some (str d.title)) ∷ (js "body", some (str d.body)) ∷ (js "tags", some tags) ∷ [])

-- `if (editing.id) update else create`
abbrev pub op_for : Option Text → Draft → SnippetOp
op_for none d = SnippetOp.create (body_of d (arr (items_of (or_none d.tags))))
op_for (some []) d = SnippetOp.create (body_of d (arr (items_of (or_none d.tags))))
op_for (some (c ∷ id)) d = SnippetOp.update (c ∷ id) (body_of d (tags_json d.tags))

abbrev pub save_op : Draft → SnippetOp
save_op d = op_for d.id d

abbrev pub save_call : Draft → Call
save_call d = snippet_call (save_op d)

unfoldable pub save : Outcome (Unit {0}) → Option Draft → Option Draft × List Effect
save o none = (none, [])
save o (some d) =
    if is_blank d.title || is_blank d.body
    then (some d, says error (js "标题和命令体不能为空") ∷ [])
    else attempt (save_call d) (some d) o (λ _. (none, says success (js "已保存") ∷ reloads ∷ []))

-- The confirmed removal of a snippet
unfoldable remove_snippet : Text → Outcome (Unit {0}) → List Effect
remove_snippet id o = confirmed (snippet_call (SnippetOp.remove id)) o (λ _. reloads ∷ [])

-- The `value` of the input of tags
unfoldable pub tag_value : Draft → Text
tag_value d = show_tags (or_none d.tags)

-- The `onChange` of the input of tags
unfoldable edit_tags : Text → Draft → Draft
edit_tags s d = record d { tags = some (parse_tags s) }

-- A character typed at the end of the input
unfoldable pub type_tag : ℕ → Draft → Draft
unfolding edit_tags tag_value
type_tag c d = edit_tags (tag_value d ++ c ∷ []) d

unfoldable pub type_tags : List ℕ → Draft → Draft
unfolding type_tag
type_tags [] d = d
type_tags (c ∷ cs) d = type_tags cs (type_tag c d)

-- `Array.from(body.matchAll(…)).map((m) => m[1])`
unfoldable pub match_names : List Piece → List Text
match_names [] = []
match_names (lit c ∷ ps) = match_names ps
match_names (hole whole name ∷ ps) = name ∷ match_names ps

abbrev pub add_each : List Text → List Text → List Text
add_each s [] = s
add_each s (t ∷ ts) = add_each (add t s) ts

-- `Array.from(new Set(names))`, the inputs of the preview
unfoldable pub preview_names : Text → List Text
unfolding match_names pieces
preview_names body = add_each [] (match_names (pieces zero body))

-- `vars` and `out`
pub record PreviewState : Type 0 where
  pub vars : Vars
  pub out : Text

pub record Rendered : Type 0 where
  pub rendered : Text
  pub missing : List Text

abbrev missing_note : List Text → Text
missing_note [] = []
missing_note (n ∷ ns) = js "\n\n[缺失变量: " ++ commas (n ∷ ns) ++ js "]"

unfoldable pub render : Snippet → Outcome Rendered → PreviewState → PreviewState × List Effect
unfolding commas
render s o p =
    attempt (snippet_call (SnippetOp.render s.body (Json.obj (vars_of p.vars)))) p o
      (λ (r : Rendered). (record p { out = r.rendered ++ missing_note r.missing }, []))
