-- ===== src/Views/Served/Work.antt =====
-- The pages of the jobs, the wizard, the snippets, and the runs.
use bastiondeck.Prelude.{
  ℕ, true, Option, none, some, List, [], ◌∷◌, Text, js, ◌≡◌, refl, Bool-cases, inl, inr, is_empty,
}
use bastiondeck.Auth.{Auth, can}
use bastiondeck.Api.Activity.{Job, RunTarget, Snippet}
use bastiondeck.Hooks.Async.{View}
use bastiondeck.Pages.Jobs.{JobDraft, save_job_op}
use bastiondeck.Pages.Snippets.{Draft, op_for, PreviewState}
use bastiondeck.Pages.Wizard.{Wizard}
use bastiondeck.Endpoints.Operations.{job_op, snippet_op}
use bastiondeck.Selection.{SelectionMode, all, pick, group, tag}
use bastiondeck.Server.Routes
use bastiondeck.Server.Routes.{may, permissions_for, route_of}
use bastiondeck.Template.{Vars}
use bastiondeck.Views.{Dates}
use bastiondeck.Views.Jobs.{JobsPage, job_table, job_dialog, jobs_view}
use bastiondeck.Views.Snippets.{
  SnippetsPage, snippet_table, snippet_dialog, preview_dialog, var_inputs, snippets_view,
}
use bastiondeck.Views.Wizard.{
  Sources, mode_choice, pick_step, command_step, watch_of, target_rows, wizard_view,
}
use bastiondeck.Views.Served.Parts.{
  Serves, IsServed, nil, cons, IsServed-each, IsServed-if, told_may, parts,
}

module _ (role : Text) (s : Auth) (told : s.permissions ≡ permissions_for role) where
  job_table-IsServed : (dates : Dates) (v : View (List Job)) → IsServed role (job_table dates s v)
  unfolding job_table route_of
  job_table-IsServed dates v =
      let may_exec = told_may role s Routes.exec told in
      search (parts, tt, IsServed-if, IsServed-each, may_exec) depth 30

  save_job-served :
      (d : JobDraft) (o : Option Job)
      → may role Routes.exec ≡ true
      → Serves role (job_op (save_job_op d o))
  unfolding route_of
  save_job-served d none h = h
  save_job-served d (some j) h = elim (Bool-cases (is_empty j.id)) [
    | inl e ↦ rw e h
    | inr e ↦ rw e h
  ]

  job_dialog-IsServed :
      (seconds : ℕ → Text) (p : JobsPage) (o : Option JobDraft)
      → ((d : JobDraft) → o ≡ some d → can s (js "exec") ≡ true)
      → IsServed role (job_dialog seconds p o)
  job_dialog-IsServed seconds p none h = nil
  job_dialog-IsServed seconds p (some d) h =
      let may_exec = told_may role s Routes.exec told (h d refl) in
      search (parts, tt, save_job-served d d.stored may_exec) depth 30

  -- All that the controls of the page of the jobs ask for is served, if its form is open only for who
  -- has a button that opens it.
  pub jobs_view-IsServed :
      (dates : Dates) (seconds : ℕ → Text) (p : JobsPage)
      → ((d : JobDraft) → p.editing ≡ some d → can s (js "exec") ≡ true)
      → IsServed role (jobs_view dates seconds s p)
  unfolding jobs_view
  jobs_view-IsServed dates seconds p own =
      search (parts, tt, job_table-IsServed, job_dialog-IsServed seconds p p.editing own) depth 20

  snippet_table-IsServed : (v : View (List Snippet)) → IsServed role (snippet_table s v)
  unfolding snippet_table route_of
  snippet_table-IsServed v =
      let may_manage = told_may role s Routes.manage_inventory told in
      search (parts, tt, IsServed-if, IsServed-each, may_manage) depth 30

  op_for-served :
      (o : Option Text) (d : Draft)
      → may role Routes.manage_inventory ≡ true
      → Serves role (snippet_op (op_for o d))
  unfolding route_of
  op_for-served none d h = h
  op_for-served (some []) d h = h
  op_for-served (some (c ∷ id)) d h = h

  snippet_dialog-IsServed :
      (o : Option Draft)
      → ((d : Draft) → o ≡ some d → can s (js "manage_inventory") ≡ true)
      → IsServed role (snippet_dialog o)
  snippet_dialog-IsServed none h = nil
  snippet_dialog-IsServed (some d) h =
      let may_manage = told_may role s Routes.manage_inventory told (h d refl) in
      search (parts, tt, op_for-served d.id d may_manage) depth 30

  var_inputs-IsServed : (vars : Vars) (ns : List Text) → IsServed role (var_inputs vars ns)
  var_inputs-IsServed vars [] = cons tt nil
  var_inputs-IsServed vars (n ∷ ns) = IsServed-each (n ∷ ns) (λ m. cons tt nil)

  preview_dialog-IsServed :
      (o : Option (Snippet × PreviewState))
      → may role Routes.read ≡ true
      → IsServed role (preview_dialog o)
  unfolding route_of
  preview_dialog-IsServed none h = nil
  preview_dialog-IsServed (some (x, p)) h = search (parts, tt, var_inputs-IsServed) depth 30

  -- All that the controls of the page of the snippets ask for is served, if its form is open only for
  -- who has a button that opens it.
  pub snippets_view-IsServed :
      (p : SnippetsPage)
      → may role Routes.read ≡ true
      → ((d : Draft) → p.editing ≡ some d → can s (js "manage_inventory") ≡ true)
      → IsServed role (snippets_view s p)
  unfolding snippets_view
  snippets_view-IsServed p reads own =
      search
        (
          parts,
          tt,
          snippet_table-IsServed,
          snippet_dialog-IsServed p.editing own,
          preview_dialog-IsServed p.preview reads,
        )
        depth 20

module _ (role : Text) (reads : may role Routes.read ≡ true)
    (executes : may role Routes.exec ≡ true) (d : Sources) where
  mode_choice-IsServed : (w : Wizard) (m : SelectionMode) → IsServed role (mode_choice d w m)
  mode_choice-IsServed w all = nil
  mode_choice-IsServed w pick = nil
  mode_choice-IsServed w group = cons tt nil
  mode_choice-IsServed w tag = cons tt nil

  target_rows-IsServed : (ts : List RunTarget) → IsServed role (target_rows d ts)
  target_rows-IsServed [] = cons tt nil
  target_rows-IsServed (t ∷ ts) = IsServed-each (t ∷ ts) (λ u. search (parts, tt) depth 20)

  pick_step-IsServed : (w : Wizard) → IsServed role (pick_step d w)
  unfolding pick_step
  pick_step-IsServed w =
      search (parts, tt, IsServed-each, mode_choice-IsServed w w.spec.mode) depth 30

  command_step-IsServed : (w : Wizard) → IsServed role (command_step d w)
  unfolding command_step route_of
  command_step-IsServed w = search (parts, tt, IsServed-each) depth 30

  watch-IsServed : (w : Wizard) (o : Option Text) → IsServed role (watch_of d w o)
  unfolding route_of
  watch-IsServed w none = nil
  watch-IsServed w (some []) = nil
  watch-IsServed w (some (c ∷ id)) = search (parts, tt, target_rows-IsServed) depth 20

  -- All that the controls of the wizard ask for is served.
  pub wizard_view-IsServed : (w : Wizard) → IsServed role (wizard_view d w)
  unfolding wizard_view
  wizard_view-IsServed w =
      search
        (
          parts,
          tt,
          IsServed-each,
          pick_step-IsServed,
          command_step-IsServed,
          watch-IsServed w w.run_id,
        )
        depth 20
