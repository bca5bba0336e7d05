-- ===== src/Pages/Forms/Resent.antt =====
-- A form is sent again, the same, until the server takes it, and never after that.
use bastiondeck.Prelude.{
  Bool, true, false, ◌&&◌, Option, none, some, List, [], ◌∷◌, ◌++◌, if◌then◌else◌, ◌≡◌, refl, ap,
  ◌∙◌,
}
use bastiondeck.Hooks.{Outcome, ok, fail}
use bastiondeck.Endpoints.Calls.{Call}
use bastiondeck.Pages.Forms.{Submit, is_some, list_of, FormLaws, tries, any_ok, until_ok}

-- Of a form whose checks pass, a call is made for each try up to the first that the server takes; of
-- one that is refused, none is made. The form stays as it is until it is taken, and is then closed.
abbrev pub IsResent {ℓ} :
    {F : Type ℓ} → Submit F → (F → Option Call) → List (Outcome (Unit {0})) → F → Type ℓ
IsResent submit request os f =
    ((tries submit os (some f)).0 ≡ (if is_some (request f) && any_ok os then none else some f))
    × ((tries submit os (some f)).1 ≡ until_ok (request f) os)

module _ {ℓ} {F : Type ℓ} (submit : Submit F) (laws : FormLaws F submit) where
  tries_closed : (os : List (Outcome (Unit {0}))) → tries submit os none ≡ (none, [])
  tries_closed [] = refl
  tries_closed (o ∷ os) = rw (laws.absent o) (rw (tries_closed os) refl)

  no_end : (b : Bool) (f : F) → some f ≡ (if b && false then none else some f)
  no_end true f = refl
  no_end false f = refl

  until_ok-none : (os : List (Outcome (Unit {0}))) → until_ok none os ≡ []
  until_ok-none [] = refl
  until_ok-none (ok u ∷ os) = refl
  until_ok-none (fail m ∷ os) = until_ok-none os

  ok-IsResent :
      (os : List (Outcome (Unit {0}))) (f : F) (r : Option Call)
      → laws.request f ≡ r
      → IsResent submit laws.request os f
      → IsResent submit laws.request (ok tt ∷ os) f
  ok-IsResent os f none e h =
      let stays : (submit (ok tt) (some f)).0 ≡ some f = rw e at (laws.closes f) in
      let (form, sent) = rw e at h in
      rw (stays, laws.sends (ok tt) f, e) (form, sent ∙ until_ok-none os)
  ok-IsResent os f (some c) e h =
      let closed : (submit (ok tt) (some f)).0 ≡ none = rw e at (laws.closes f) in
      rw (closed, laws.sends (ok tt) f, e, tries_closed os) (refl, refl)

  pub tries-IsResent : (os : List (Outcome (Unit {0}))) (f : F) → IsResent submit laws.request os f
  tries-IsResent [] f = (no_end (is_some (laws.request f)) f, refl)
  tries-IsResent (ok tt ∷ os) f = ok-IsResent os f (laws.request f) refl (tries-IsResent os f)
  tries-IsResent (fail m ∷ os) f =
      let (form, sent) = tries-IsResent os f in
      rw (laws.kept m f, laws.sends (fail m) f)
        (form, ap (λ cs. list_of (laws.request f) ++ cs) sent)
