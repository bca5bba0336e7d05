-- ===== src/Confirm.antt =====
-- web/src/components/Confirm.tsx: the dialog that asks before an action, and shows why it failed.
pub mod Once
use bastiondeck.Prelude.{
  ℕ, ◌+◌, ◌-◌, Bool, true, false, ◌&&◌, not, Option, none, some, List, [], ◌∷◌, Text, eqb,
  if◌then◌else◌,
}
use bastiondeck.Hooks.{Outcome, ok, fail}

-- `open`, `busy` and `err`, and how many calls of `onConfirm` have not settled.
pub record Dialog : Type 0 where
  pub is_open : Bool
  pub busy : Bool
  pub err : Option Text
  pub in_flight : ℕ

abbrev pub closed_dialog : Dialog
closed_dialog = record { is_open = false; busy = false; err = none; in_flight = 0 }

pub data DialogEvent : Type 0 where
  opens closes confirms : DialogEvent
  settles : Outcome (Unit {0}) → DialogEvent

abbrev settled : Outcome (Unit {0}) → Dialog → Dialog
settled (ok _) s = record s { is_open = false; busy = false; in_flight = s.in_flight - 1 }
settled (fail m) s = record s { err = some m; busy = false; in_flight = s.in_flight - 1 }

-- The button that confirms is there while the dialog is open, and disabled while it is busy. The
-- dialog may be closed and opened again while a call is on its way.
unfoldable pub dialog_step : DialogEvent → Dialog → Dialog
dialog_step opens s = record s { err = none; is_open = true }
dialog_step closes s = record s { is_open = false }
dialog_step confirms s =
    if s.is_open && not s.busy
    then record s { busy = true; err = none; in_flight = s.in_flight + 1 }
    else s
dialog_step (settles o) s = if eqb s.in_flight 0 then s else settled o s

unfoldable pub dialog_run : List DialogEvent → Dialog → Dialog
unfolding dialog_step
dialog_run [] s = s
dialog_run (e ∷ es) s = dialog_run es (dialog_step e s)
