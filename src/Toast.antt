-- ===== src/Toast.antt =====
-- web/src/lib/toast.tsx: the stack of messages, the counter `seq` and the timers that remove them.
pub mod Timers
use bastiondeck.Prelude.{
  ℕ, suc, ◌+◌, ◌<◌, ◌≤◌, Bool, true, false, ◌||◌, not, All-append, List, [], ◌∷◌, ◌++◌, Text,
  filter, any, All, eqb, ◌≡◌, refl, arith, if◌then◌else◌,
}

pub data ToastKind : Type 0 where
  info success error : ToastKind

pub record Toast : Type 0 where
  pub id : ℕ
  pub kind : ToastKind
  pub text : Text

abbrev pub delay : ToastKind → ℕ
delay info = 3000
delay success = 3000
delay error = 6000

-- `timers` holds the ids whose timers have not fired, with the delays that they were set with.
pub record Toasts : Type 0 where
  pub seq : ℕ
  pub shown : List Toast
  pub timers : List (ℕ × ℕ)

abbrev pub no_toasts : Toasts
no_toasts = record { seq = 0; shown = []; timers = [] }

unfoldable pub remove : ℕ → Toasts → Toasts
remove id s = record s { shown = filter (λ t. not (eqb t.id id)) s.shown }

unfoldable push : ToastKind → Text → Toasts → Toasts
push kind text s = record {
  seq = s.seq + 1;
  shown = s.shown ++ record { id = s.seq + 1; kind = kind; text = text } ∷ [];
  timers = s.timers ++ (s.seq + 1, delay kind) ∷ [];
}

pub data Action : Type 0 where
  pushes : ToastKind → Text → Action
  clicks : ℕ → Action
  fires : ℕ → Action

-- A click removes its message; a timer does too, and is spent.
unfoldable pub act : Action → Toasts → Toasts
unfolding push remove
act (pushes kind text) s = push kind text s
act (clicks id) s = remove id s
act (fires id) s = remove id (record s { timers = filter (λ t. not (eqb t.0 id)) s.timers })

unfoldable pub acts : List Action → Toasts → Toasts
unfolding act
acts [] s = s
acts (a ∷ as') s = acts as' (act a s)
