-- ===== src/Pages/Forms.antt =====
-- What the forms of the pages have in common: a handler that takes the outcome of its call and the
-- form, which is `none` once it is closed.
pub mod Kept
pub mod Resent
use bastiondeck.Prelude.{
  Bool, true, false, ◌&&◌, ◌||◌, Option, none, some, List, [], ◌∷◌, ◌++◌, Text, if◌then◌else◌, ◌≡◌,
}
use bastiondeck.Hooks.{Outcome, ok, fail}
use bastiondeck.Endpoints.Calls.{Call}
use bastiondeck.Pages.{Effect, calls_of}

abbrev pub Submit {ℓ} : Type ℓ → Type ℓ
Submit F = Outcome (Unit {0}) → Option F → Option F × List Effect

abbrev pub is_some {ℓ} : {A : Type ℓ} → Option A → Bool
is_some none = false
is_some (some a) = true

abbrev pub list_of {ℓ} : {A : Type ℓ} → Option A → List A
list_of none = []
list_of (some a) = a ∷ []

-- A form's handler, and what it promises: `request` is the call that a form is sent by, `none` where a
-- check refuses it.
pub record FormLaws {ℓ} (F : Type ℓ) (submit : Submit F) : Type ℓ where
  pub request : F → Option Call
  pub absent : (o : Outcome (Unit {0})) → submit o none ≡ (none, [])
  pub sends :
      (o : Outcome (Unit {0})) (f : F) → calls_of (submit o (some f)).1 ≡ list_of (request f)
  pub kept : (m : Text) (f : F) → (submit (fail m) (some f)).0 ≡ some f
  pub closes :
      (f : F) → (submit (ok tt) (some f)).0 ≡ (if is_some (request f) then none else some f)

-- A handler is called once for each outcome; the calls that it makes, in order.
abbrev pub tries {ℓ} :
    {F : Type ℓ} → Submit F → List (Outcome (Unit {0})) → Option F → Option F × List Call
tries submit [] form = (form, [])
tries submit (o ∷ os) form =
    let (next, es) = submit o form in
    let (last, cs) = tries submit os next in (last, calls_of es ++ cs)

abbrev pub any_ok : List (Outcome (Unit {0})) → Bool
any_ok [] = false
any_ok (ok _ ∷ os) = true
any_ok (fail m ∷ os) = any_ok os

-- A call for each outcome up to the first that is `ok`, and none after it
abbrev pub until_ok : Option Call → List (Outcome (Unit {0})) → List Call
until_ok c [] = []
until_ok c (ok _ ∷ os) = list_of c
until_ok c (fail m ∷ os) = list_of c ++ until_ok c os
