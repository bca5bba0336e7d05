-- ===== src/Confirm/Once.antt =====
-- An action that was confirmed runs once at a time, and a failure is shown.
use bastiondeck.Prelude.{true, false, some, List, [], ◌∷◌, Text, if◌then◌else◌, ◌≡◌, refl, arith}
use bastiondeck.Hooks.{ok, fail}
use bastiondeck.Confirm.{
  Dialog, DialogEvent, opens, closes, confirms, settles, dialog_step, dialog_run,
}

-- One call is on its way while the dialog is busy, and else none.
abbrev pub IsSingle : Dialog → Type 0
IsSingle s = s.in_flight ≡ (if s.busy then 1 else 0)

dialog_step-IsSingle : (e : DialogEvent) (s : Dialog) → IsSingle s → IsSingle (dialog_step e s)
unfolding dialog_step
dialog_step-IsSingle opens s h = h
dialog_step-IsSingle closes s h = h
dialog_step-IsSingle confirms s h = ground arith
dialog_step-IsSingle (settles (ok u)) s h = ground arith
dialog_step-IsSingle (settles (fail m)) s h = ground arith

-- Whatever is clicked and however calls settle, from a state in which that is so, one call of the
-- action is on its way while the dialog is busy, and none while it is not: an action that is not
-- finished is never started again.
pub dialog_run-IsSingle :
    (es : List DialogEvent) (s : Dialog) → IsSingle s → IsSingle (dialog_run es s)
unfolding dialog_run
dialog_run-IsSingle [] s h = h
dialog_run-IsSingle (e ∷ es) s h =
    dialog_run-IsSingle es (dialog_step e s) (dialog_step-IsSingle e s h)

-- Once an action that was confirmed in an open dialog fails, the dialog is open, free again, and shows
-- the message of the failure.
dialog_run-fail :
    (s : Dialog) (m : Text)
    → IsSingle s
    → s.is_open ≡ true
    → s.busy ≡ false
    → dialog_run (confirms ∷ settles (fail m) ∷ []) s
      ≡ record { is_open = true; busy = false; err = some m; in_flight = 0 }
unfolding dialog_run dialog_step
dialog_run-fail s m h shown free =
    let idle : s.in_flight ≡ 0 = ground arith in rw (shown, free, idle) refl
