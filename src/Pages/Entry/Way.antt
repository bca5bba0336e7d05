-- ===== src/Pages/Entry/Way.antt =====
-- Where a login leads, and which owners are set up.
use bastiondeck.Prelude.{
  ◌&&◌, js, if◌then◌else◌, ◌≤◌, Bool, true, false, Option, none, some, List, [], ◌∷◌, Text, ◌==◌,
  ==_iff, ltb, length, ◌≡◌, ◌≢◌, ◌↔◌, refl, arith, Bool-cases, inl, inr,
}
use bastiondeck.Hooks.{Outcome, ok, fail}
use bastiondeck.Auth.{Auth, Me, Answers, login, refresh}
use bastiondeck.Auth.Guard.{gate, gate_setup, through}
use bastiondeck.Pages.{Effect, calls, says, reloads, goes, downloads, calls_of}
use bastiondeck.Pages.Files.{starts_with_slash}
use bastiondeck.Pages.Entry.{
  LoginForm, destination, submit_login, SetupForm, setup_requests, submit_setup,
}

-- The paths that are gone to among the effects, in order.
abbrev pub ways_of : List Effect → List Text
ways_of [] = []
ways_of (calls c ∷ es) = ways_of es
ways_of (says k m ∷ es) = ways_of es
ways_of (reloads ∷ es) = ways_of es
ways_of (goes to ∷ es) = to ∷ ways_of es
ways_of (downloads name bytes ∷ es) = ways_of es

-- The path that was asked for before, if it starts with a slash, and the root otherwise.
abbrev pub way_back : Option Text → Text
way_back none = js "/"
way_back (some p) = if starts_with_slash p then p else js "/"

destination-eq-way_back : (from : Option Text) → destination from ≡ way_back from
unfolding destination
destination-eq-way_back none = refl
destination-eq-way_back (some []) = refl
destination-eq-way_back (some (c ∷ s)) = refl

abbrev pub is_ok {ℓ} : {A : Type ℓ} → Outcome A → Bool
is_ok (ok a) = true
is_ok (fail m) = false

gate_setup-stays : (o : Option Bool) → gate_setup o false ≢ through
gate_setup-stays none e = cc
gate_setup-stays (some true) e = cc
gate_setup-stays (some false) e = cc

gate-stays : (s : Auth) → s.loading ≡ false → s.user ≡ none → gate s ≢ through
unfolding gate
gate-stays s h u e = gate_setup-stays s.setup_required (rw (h, u) at e)

-- The login was taken, the server is set up, and it has named a user, who is the one signed in.
abbrev pub IsLetIn : Outcome Text → Answers → Auth → Type 0
IsLetIn o a s =
    (me : Me) × (is_ok o ≡ true) × (a.status ≡ ok false) × (a.me ≡ ok me) × (s.user ≡ some me.user)

module _ (from : Option Text) (is_api : Bool) (f : LoginForm) (s : Auth) (h : s.loading ≡ false)
    (u : s.user ≡ none) where
  gate-submit_login_iff :
      (o : Outcome Text) (st : Outcome Bool) (me : Outcome Me)
      → let a : Answers = record { status = st; me = me } in
        let done = submit_login from is_api o a f s in (gate done.0 ≡ through) ↔ IsLetIn o a done.0
  unfolding submit_login login refresh gate
  gate-submit_login_iff (fail m) st me = (λ e. absurd (gate-stays s h u e), λ k. absurd cc)
  gate-submit_login_iff (ok t) (fail m) me =
      (λ e. absurd (gate-stays (record s { token = some t }) h u e), λ k. absurd cc)
  gate-submit_login_iff (ok t) (ok true) me = (λ e. absurd cc, λ k. absurd cc)
  gate-submit_login_iff (ok t) (ok false) (ok me) =
      (λ e. (me, refl, refl, refl, refl), λ k. rw h refl)
  gate-submit_login_iff (ok t) (ok false) (fail m) =
      (λ e. let held = rw h at e in absurd cc, λ k. absurd cc)

  ways_of-submit_login :
      (o : Outcome Text) (st : Outcome Bool) (me : Outcome Me)
      → ways_of (submit_login from is_api o (record { status = st; me = me }) f s).1
        ≡ (if is_ok o && is_ok st then way_back from ∷ [] else [])
  unfolding submit_login login refresh
  ways_of-submit_login (fail m) st me = refl
  ways_of-submit_login (ok t) (fail m) me = refl
  ways_of-submit_login (ok t) (ok true) me = rw destination-eq-way_back refl
  ways_of-submit_login (ok t) (ok false) me = rw destination-eq-way_back refl

-- On a page that has finished loading, with nobody signed in, the login page leads elsewhere exactly
-- if the login and the status asked for after it are both answered, even when the user is not: to the
-- path that was asked for before, if that starts with a slash, and to the root otherwise. Behind the
-- gate one ends exactly if, besides, no setup is required and the server names the user, who is then
-- the one signed in.
pub submit_login_through :
    (from : Option Text) (is_api : Bool) (o : Outcome Text) (a : Answers) (f : LoginForm) (s : Auth)
    → s.loading ≡ false
    → s.user ≡ none
    → let done = submit_login from is_api o a f s in
      (ways_of done.1 ≡ (if is_ok o && is_ok a.status then way_back from ∷ [] else []))
      × ((gate done.0 ≡ through) ↔ IsLetIn o a done.0)
submit_login_through from is_api o a f s h u = (
  ways_of-submit_login from is_api f s h u o a.status a.me,
  gate-submit_login_iff from is_api f s h u o a.status a.me,
)

-- A login that the server does not take leaves the session as it was and leads nowhere.
submit_login-fail :
    (from : Option Text) (is_api : Bool) (m : Text) (a : Answers) (f : LoginForm) (s : Auth)
    → let done = submit_login from is_api (fail m) a f s in (done.0 ≡ s) × (ways_of done.1 ≡ [])
unfolding submit_login login
submit_login-fail from is_api m a f s = (refl, refl)

setup_requests-there :
    (o : Outcome (Unit {0})) (f : SetupForm) (es : List Effect)
    → calls_of (setup_requests o f es) ≢ []
setup_requests-there (ok u) f es e = cc
setup_requests-there (fail m) f es e = cc

-- The setup page calls the server exactly if the password has ten characters and is repeated.
calls_of-submit_setup_iff :
    (o : Outcome (Unit {0})) (l : Outcome Text) (a : Answers) (f : SetupForm) (s : Auth)
    → (calls_of (submit_setup o l a f s).1 ≢ [])
      ↔ ((10 ≤ length f.password) × (f.password ≡ f.confirm))
unfolding submit_setup
calls_of-submit_setup_iff o l a f s = (
  (λ h. elim (Bool-cases (ltb (length f.password) 10)) [
    | inl short ↦ absurd (h (rw short refl))
    | inr long ↦ elim (Bool-cases (f.password == f.confirm)) [
      | inl same ↦ (ground arith, (==_iff f.password f.confirm).0 same)
      | inr other ↦ absurd (h (rw (long, other) refl))
    ]
  ]),
  (λ h.
      let long : ltb (length f.password) 10 ≡ false = ground arith in
      let same : f.password == f.confirm ≡ true = (==_iff f.password f.confirm).1 h.1 in
      rw (long, same) (setup_requests-there o f _)),
)
