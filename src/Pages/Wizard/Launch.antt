-- ===== src/Pages/Wizard/Launch.antt =====
-- What the wizard sends, and only when it may.
use bastiondeck.Prelude.Json.{str, arr, num, obj}
use bastiondeck.Pages.Credentials.Secrets.{sent}
use bastiondeck.Api.Inventory.{Host}
use bastiondeck.Prelude.{
  js, any, ap, ◌∙◌, ◌==◌, ◌||◌, false, some, List, [], ◌∷◌, Text, All, length, ltb, eqb, map,
  contains, HasNoRepeat, ◌↔◌, ◌≡◌, ◌≢◌, refl, arith, Bool-cases, inl, inr,
}
use bastiondeck.Client.{get_field}
use bastiondeck.Hooks.{Outcome, ok, fail}
use bastiondeck.Endpoints.Calls.{Call}
use bastiondeck.Endpoints.Work.{RunOp, run_call, exec_call}
use bastiondeck.Selection.Tags.{dedupe_ids_lem}
use bastiondeck.Template.{filled, required_variables}
use bastiondeck.Template.Render.{is_none, missing-eq-nil_iff}
use bastiondeck.Pages.{calls_of}
use bastiondeck.Pages.Wizard.{
  Wizard, Loaded, chosen, is_blank, is_no_timeout, target_ids, exec_request, missing_of, launched,
  launch, items_of, vars_of,
}

-- The command is not blank, a host is chosen, the timeout is positive, and every variable of the
-- command has a value.
abbrev pub IsReady : Loaded → Wizard → Type 0
IsReady d w =
    (is_blank w.command ≡ false)
    × (eqb (length (chosen d w)) 0 ≡ false)
    × (is_no_timeout w.timeout_sec ≡ false)
    × All (λ a. is_none (filled w.vars a) ≡ false) (required_variables w.command)

launch_ready :
    (d : Loaded) (o : Outcome Text) (w : Wizard) → IsReady d w → launch d o w ≡ launched d w o
unfolding launch
launch_ready d o w (h1, h2, h3, h4) =
    let none_missing = (missing-eq-nil_iff w.command w.vars).1 h4 in
    rw (h1, h2, h3, none_missing) refl

calls_of-launched :
    (d : Loaded) (o : Outcome Text) (w : Wizard)
    → (cs : List Call) × (calls_of (launched d w o).1 ≡ exec_request d w ∷ cs)
calls_of-launched d (ok id) w = (_, refl)
calls_of-launched d (fail m) w = (_, refl)

length_nil {ℓ} : {A : Type ℓ} (xs : List A) → ltb 0 (length xs) ≡ false → xs ≡ []
length_nil [] h = refl
length_nil (x ∷ xs) h = absurd (ground arith)

IsReady-of_calls :
    (d : Loaded) (o : Outcome Text) (w : Wizard) → calls_of (launch d o w).1 ≢ [] → IsReady d w
unfolding launch
IsReady-of_calls d o w h = elim (Bool-cases (is_blank w.command)) [
  | inl blank ↦ absurd (h (rw blank refl))
  | inr h1 ↦ elim (Bool-cases (eqb (length (chosen d w)) 0)) [
    | inl none_chosen ↦ absurd (h (rw (h1, none_chosen) refl))
    | inr h2 ↦ elim (Bool-cases (is_no_timeout w.timeout_sec)) [
      | inl no_timeout ↦ absurd (h (rw (h1, h2, no_timeout) refl))
      | inr h3 ↦ elim (Bool-cases (ltb 0 (length (missing_of w)))) [
        | inl some_missing ↦ absurd (h (rw (h1, h2, h3, some_missing) refl))
        | inr h4 ↦
            (h1, h2, h3, (missing-eq-nil_iff w.command w.vars).0 (length_nil (missing_of w) h4))
      ]
    ]
  ]
]

-- The button makes a call exactly if the command is not blank, a host is chosen, the timeout is
-- positive, and every variable that the command requires has a value that is not empty.
pub launch_iff :
    (d : Loaded) (o : Outcome Text) (w : Wizard) → (calls_of (launch d o w).1 ≢ []) ↔ IsReady d w
launch_iff d o w = (
  IsReady-of_calls d o w,
  λ ready e.
      let (cs, first) = calls_of-launched d o w in
      let sent = rw (launch_ready d o w ready) at e in cc,
)

-- The ids that are sent are distinct, and are those of the hosts that are chosen.
target_ids_lem :
    (d : Loaded) (w : Wizard) (a : Text)
    → HasNoRepeat (target_ids d w)
      × (contains a (target_ids d w) ≡ contains a (map (λ h. h.id) (chosen d w)))
unfolding target_ids
target_ids_lem d w a = dedupe_ids_lem (map (λ h. h.id) (chosen d w)) a

-- The request posts the command, the ids, the timeout and the values of the variables to "/api/exec".
abbrev pub Posts : Loaded → Wizard → List Text → Call → Type 0
Posts d w ids c =
    (c.method ≡ js "POST")
    × (c.path ≡ js "/api/exec")
    × (sent (js "command") c ≡ some (str w.command))
    × (sent (js "targetIds") c ≡ some (arr (items_of ids)))
    × (sent (js "timeoutSec") c ≡ some (num w.timeout_sec))
    × (sent (js "vars") c ≡ some (obj (vars_of w.vars)))

exec_request-Posts_of :
    (d : Loaded) (w : Wizard) (snippet : Text)
    → Posts d w (target_ids d w) (exec_request d (record w { snippet_id = snippet }))
unfolding exec_call get_field target_ids ◌==◌
exec_request-Posts_of d w [] = (refl, refl, refl, refl, refl, refl)
exec_request-Posts_of d w (c ∷ s) = (refl, refl, refl, refl, refl, refl)

exec_request-Posts : (d : Loaded) (w : Wizard) → Posts d w (target_ids d w) (exec_request d w)
exec_request-Posts d w = exec_request-Posts_of d w w.snippet_id

contains-ids :
    (a : Text) (hs : List Host) → contains a (map (λ h. h.id) hs) ≡ any (λ h. a == h.id) hs
unfolding contains
contains-ids a [] = refl
contains-ids a (h ∷ hs) = ap (λ b. a == h.id || b) (contains-ids a hs)

-- If all is ready and the server takes the run, the first of two calls posts the command, the timeout,
-- the values of the variables and ids to "/api/exec", where the ids are distinct and an id is one of
-- them exactly if a chosen host has it; the other asks for the run that the server names, which the
-- wizard goes on to watch, with no targets shown yet.
pub launch_ok :
    (d : Loaded) (id : Text) (w : Wizard)
    → IsReady d w
    → (c : Call) × (ids : List Text) × (calls_of (launch d (ok id) w).1
        ≡ c ∷ run_call (RunOp.get id) ∷ [])
      × Posts d w ids c
      × HasNoRepeat ids
      × ((a : Text) → contains a ids ≡ any (λ h. a == h.id) (chosen d w))
      × ((launch d (ok id) w).0 ≡ record w { run_id = some id; step = 3; targets = [] })
launch_ok d id w ready = (
  exec_request d w,
  target_ids d w,
  rw (launch_ready d (ok id) w ready) refl,
  exec_request-Posts d w,
  (target_ids_lem d w []).0,
  (λ a. (target_ids_lem d w a).1 ∙ contains-ids a (chosen d w)),
  rw (launch_ready d (ok id) w ready) refl,
)

-- If all is ready and the call fails, the wizard stays where it was, and nothing else is called.
launch_fail :
    (d : Loaded) (m : Text) (w : Wizard)
    → IsReady d w
    → (calls_of (launch d (fail m) w).1 ≡ exec_request d w ∷ []) × ((launch d (fail m) w).0 ≡ w)
launch_fail d m w ready = rw (launch_ready d (fail m) w ready) (refl, refl)
