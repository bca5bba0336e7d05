-- ===== src/Views/Snippets.antt =====
-- web/src/pages/Snippets.tsx: what the page of the snippets reads and shows.
use bastiondeck.Prelude.{
  Bool, true, false, Option, none, some, List, [], ◌∷◌, ◌++◌, Text, js, is_empty, if◌then◌else◌,
}
use bastiondeck.Prelude.Json.{obj}
use bastiondeck.Api.Activity.{Snippet}
use bastiondeck.Format.{join}
use bastiondeck.Hooks.Async.{View}
use bastiondeck.Auth.{Auth, can}
use bastiondeck.Endpoints.Operations.{Operation, snippet_op}
use bastiondeck.Endpoints.Work.{SnippetOp}
use bastiondeck.Pages.Snippets.{Draft, save_op, or_none, tag_value, PreviewState, preview_names}
use bastiondeck.Pages.Wizard.{vars_of}
use bastiondeck.Template.{Vars, lookup}
use bastiondeck.Views.{
  Node, text, button, input, row, dialog, only_if, each, loading, empty, error_box, page_title,
  or_nil,
}

pub record SnippetsPage : Type 0 where
  pub snippets : View (List Snippet)
  pub editing : Option Draft
  pub preview : Option (Snippet × PreviewState)

abbrev pub snippets_loads : List Operation
snippets_loads = snippet_op SnippetOp.list ∷ []

abbrev snippet_row : Auth → Snippet → List Node
snippet_row s x =
    row x.id false
      ∷ text x.title
      ∷ button (js "预览渲染") true []
      ∷ only_if (can s (js "manage_inventory")) (button (js "编辑") true [] ∷ [])
    ++ only_if (can s (js "manage_inventory"))
        (button (js "删") true (snippet_op (SnippetOp.remove x.id) ∷ []) ∷ [])
    ++ text x.body ∷ text (join (js " · ") (or_none x.tags)) ∷ []

abbrev is_no_snippet : Option (List Snippet) → Bool
is_no_snippet none = false
is_no_snippet (some []) = true
is_no_snippet (some (x ∷ xs)) = false

unfoldable pub snippet_table : Auth → View (List Snippet) → List Node
snippet_table s v =
    if v.loading
    then loading
    else if is_no_snippet v.value
    then empty (js "暂无片段")
    else each (snippet_row s) (or_nil v.value)

abbrev title_of : Option Text → Text
title_of none = js "新建片段"
title_of (some []) = js "新建片段"
title_of (some (c ∷ id)) = js "编辑片段"

abbrev pub snippet_dialog : Option Draft → List Node
snippet_dialog none = []
snippet_dialog (some d) =
    dialog (title_of d.id)
    ∷ input (js "标题") d.title
    ∷ input (js "命令体（用 ${name} 表示变量）") d.body
    ∷ input (js "标签（逗号分隔）") (tag_value d)
    ∷ button (js "取消") true []
    ∷ button (js "保存") true (snippet_op (save_op d) ∷ [])
    ∷ []

abbrev value_or : Option Text → Text
value_or none = []
value_or (some v) = v

abbrev var_input : Vars → Text → List Node
var_input vars n = input n (value_or (lookup n vars)) ∷ []

abbrev pub var_inputs : Vars → List Text → List Node
var_inputs vars [] = text (js "该片段没有变量") ∷ []
var_inputs vars (n ∷ ns) = each (var_input vars) (n ∷ ns)

-- `RenderPreview`
abbrev pub preview_dialog : Option (Snippet × PreviewState) → List Node
preview_dialog none = []
preview_dialog (some (x, p)) =
    dialog (js "渲染预览：" ++ x.title) ∷ var_inputs p.vars (preview_names x.body)
    ++ only_if (if is_empty p.out then false else true) (text p.out ∷ [])
    ++ button (js "渲染") true (snippet_op (SnippetOp.render x.body (obj (vars_of p.vars))) ∷ []) ∷ []

unfoldable pub snippets_view : Auth → SnippetsPage → List Node
unfolding tag_value lookup preview_names
snippets_view s p =
    text (js "命令片段") ∷ error_box p.snippets.error
    ++ page_title (js "可复用命令（${变量} 占位，执行时显式填值）")
        (only_if (can s (js "manage_inventory")) (button (js "+ 新建片段") true [] ∷ []))
    ++ snippet_table s p.snippets
    ++ snippet_dialog p.editing
    ++ preview_dialog p.preview
