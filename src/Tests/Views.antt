-- ===== src/Tests/Views.antt =====
-- Messages, dialogs, the terminal, the live feed, groups, and the file manager.
use bastiondeck.Prelude.{
  none, some, Option, List, [], ◌∷◌, Text, js, ltb, ◌≡◌, refl, arith, if◌then◌else◌,
}
use bastiondeck.Hooks.{ok}
use bastiondeck.Toast.{error, no_toasts, Action, pushes, clicks, fires, acts}
use bastiondeck.Toast.Timers.{shown-eq-nil}
use bastiondeck.Terminal.{
  open_at, input, TerminalEvent, types, opens, closes, fresh_terminal, terminal_run,
}
use bastiondeck.Terminal.Session.{IsSession, terminal_run-IsSession}
use bastiondeck.Confirm.{DialogEvent, confirms, closed_dialog, dialog_run}
use bastiondeck.Confirm.Once.{IsSingle, dialog_run-IsSingle}
use bastiondeck.Feed.{FeedEvent, event, toggle_pause}
use bastiondeck.Endpoints.Fleet.{FsOp, fs_call}
use bastiondeck.Pages.{calls_of}
use bastiondeck.Pages.Files.{FileRead, crumbs, up, all_but_last, join, edit, open_file, save_button}
use bastiondeck.Pages.Files.Paths.{rooted, crumbs-up}
use bastiondeck.Pages.Files.Editor.{calls_of-save_button, emptied_file}

abbrev two_errors : List Action
two_errors = pushes error (js "a") ∷ pushes error (js "b") ∷ clicks 1 ∷ fires 1 ∷ fires 2 ∷ []

two_errors_fired : (acts two_errors no_toasts).timers ≡ []
unfolding acts
two_errors_fired = refl

shown-eq-nil_example : (acts two_errors no_toasts).shown ≡ []
shown-eq-nil_example = shown-eq-nil two_errors two_errors_fired

abbrev two_events : List FeedEvent
two_events =
    event (js "t1") (js "run.update") (record {
      run_id = some (js "r1");
      target_id = none;
      status = some (js "running");
      message = none;
    })
    ∷ toggle_pause
    ∷ []

crumbs-up_example :
    (up (js "/var//log/") ≡ rooted (all_but_last (crumbs (js "/var//log/"))))
    × (crumbs (up (js "/var//log/")) ≡ all_but_last (crumbs (js "/var//log/")))
crumbs-up_example = crumbs-up (js "/var//log/")

up_log : up (js "/var//log/") ≡ js "/var"
unfolding up
up_log = refl

-- Base64 that stands for nothing, and reads as no text.
abbrev binary : FileRead
binary = record { size = 3; sha256 = some (js "ab12"); content_base64 = js "gICA" }

abbrev no_text : Text → Option Text
no_text s = none

abbrev as_it_is : Text → Text
as_it_is s = s

calls_of-save_button_example :
    let opened = (open_file no_text (js "h1") (js "/srv") (js "a") (ok binary) none).0 in
    calls_of (save_button as_it_is (js "h1") (ok tt) (edit (js "new") opened)).1 ≡ (
      if ltb 3 1000000
      then fs_call (FsOp.write (js "h1") (join (js "/srv") (js "a")) (js "new") (some (js "ab12")))
        ∷ []
      else [])
calls_of-save_button_example =
    calls_of-save_button as_it_is no_text (js "h1") (js "/srv") (js "a") (js "new") binary none
      (ok tt)

emptied_file_example :
    let opened = (open_file no_text (js "h1") (js "/srv") (js "a") (ok binary) none).0 in
    calls_of (save_button as_it_is (js "h1") (ok tt) opened).1
    ≡ fs_call (FsOp.write (js "h1") (join (js "/srv") (js "a")) [] (some (js "ab12"))) ∷ []
emptied_file_example =
    emptied_file as_it_is no_text (js "h1") (js "/srv") (js "a") binary none (ok tt) (omega arith)
      refl

abbrev two_clicks : List DialogEvent
two_clicks = DialogEvent.opens ∷ confirms ∷ DialogEvent.closes ∷ DialogEvent.opens ∷ confirms ∷ []

dialog_run-IsSingle_example : IsSingle (dialog_run two_clicks closed_dialog)
dialog_run-IsSingle_example = dialog_run-IsSingle two_clicks closed_dialog refl

dialog_run_one : (dialog_run two_clicks closed_dialog).in_flight ≡ 1
unfolding dialog_run
dialog_run_one = refl

abbrev typing : List TerminalEvent
typing = types (js "ls") ∷ opens 80 24 ∷ types (js "pwd") ∷ closes ∷ types (js "x") ∷ []

terminal_run-IsSession_example :
    IsSession (js "h1") (terminal_run no_text typing (fresh_terminal (js "h1"))).sent
terminal_run-IsSession_example = terminal_run-IsSession no_text typing (js "h1")

sent-terminal_run :
    (terminal_run no_text typing (fresh_terminal (js "h1"))).sent
    ≡ open_at (js "h1") 80 24 ∷ input (js "pwd") ∷ []
unfolding terminal_run
sent-terminal_run = refl
