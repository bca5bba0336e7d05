-- ===== src/Views/Dashboard/Health.antt =====
-- When the dashboard says that the server is not well.
use bastiondeck.Prelude.{
  Bool, true, false, not, Option, none, some, List, [], ◌∷◌, Text, js, ◌≡◌, ◌↔◌, refl, arith, any,
  Bool-cases, inl, inr, ◌==◌,
}
use bastiondeck.Api.Activity.{DoctorCheck, DoctorReport}
use bastiondeck.Hooks.Async.{View}
use bastiondeck.Auth.{Auth, can}
use bastiondeck.Views.{Node, each, flat}
use bastiondeck.Views.Dashboard.{check_row, report, doctor_panel}

abbrev is_label : Text → Option Text → Bool
is_label l none = false
is_label l (some t) = t == l

-- A badge with this label
abbrev pub is_badge : Text → Node → Bool
is_badge l (Node.badge c t) = is_label l t
is_badge l _ = false

check_rows-plain : (cs : List DoctorCheck) → any (is_badge (js "异常")) (each check_row cs) ≡ false
unfolding each
check_rows-plain [] = refl
check_rows-plain (c ∷ cs) = check_rows-plain cs

abbrev is_bad : Option DoctorReport → Bool
is_bad none = false
is_bad (some r) = not r.ok

bad_report : (o : Option DoctorReport) → any (is_badge (js "异常")) (report o) ≡ is_bad o
unfolding ◌==◌
bad_report none = refl
bad_report (some r) = elim (Bool-cases r.ok) [
  | inl e ↦ rw (e, check_rows-plain r.checks) refl
  | inr e ↦ rw e refl
]

-- The answer is a report that is not ok.
abbrev pub IsUnwell : Option DoctorReport → Type 0
IsUnwell none = ⊥
IsUnwell (some r) = r.ok ≡ false

is_bad_iff : (o : Option DoctorReport) → (is_bad o ≡ true) ↔ IsUnwell o
is_bad_iff none = (λ h. ground arith, λ h. absurd h)
is_bad_iff (some r) = (λ h. ground arith, λ h. ground arith)

-- The dashboard's panel of the self-check shows a badge that says unhealthy exactly if the user may
-- execute, the self-check is not on its way, and it has answered with a report that is not ok: never
-- because the user may not run it or it could not be run.
pub doctor_panel-bad_iff :
    (s : Auth) (v : View (Option DoctorReport))
    → (any (is_badge (js "异常")) (doctor_panel s v) ≡ true)
      ↔ ((can s (js "exec") ≡ true) × (v.loading ≡ false) × IsUnwell (flat v.value))
unfolding doctor_panel ◌==◌
doctor_panel-bad_iff s v = elim (Bool-cases (can s (js "exec"))) [
  | inl may_exec ↦ elim (Bool-cases v.loading) [
    | inl waits ↦ rw (may_exec, waits) (λ h. ground arith, λ h. ground arith)
    | inr over ↦
        rw (may_exec, over, bad_report (flat v.value))
          (
            λ h. (refl, refl, (is_bad_iff (flat v.value)).0 h),
            λ h. (is_bad_iff (flat v.value)).1 h.2,
          )
  ]
  | inr e ↦ rw e (λ h. ground arith, λ h. ground arith)
]
