-- ===== src/Toast/Timers.antt =====
-- Every message is taken away again.
use bastiondeck.Prelude.{
  ℕ, ◌+◌, ◌≤◌, Bool, true, false, ◌||◌, not, List, [], ◌∷◌, ◌++◌, filter, any, All, All-append, eqb,
  ◌≡◌, refl, arith,
}
use mathlib.Core.Path.{subst}
use bastiondeck.Toast.{Toast, delay, Toasts, no_toasts, Action, pushes, clicks, fires, act, acts}

abbrev has_timer : ℕ → List (ℕ × ℕ) → Bool
has_timer id timers = any (λ t. eqb t.0 id) timers

-- Every message shown has a timer that will remove it, and a number not above the counter.
abbrev pub IsTimed : Toasts → Type 0
IsTimed s = All (λ t. (has_timer t.id s.timers ≡ true) × (t.id ≤ s.seq)) s.shown

has_timer-append :
    (id : ℕ) (xs ys : List (ℕ × ℕ)) → has_timer id (xs ++ ys) ≡ (has_timer id xs || has_timer id ys)
has_timer-append id [] ys = refl
has_timer-append id (x ∷ xs) ys = ground (arith, has_timer-append id xs ys)

has_timer-filter :
    (id gone : ℕ) (xs : List (ℕ × ℕ))
    → eqb id gone ≡ false
    → has_timer id (filter (λ t. not (eqb t.0 gone)) xs) ≡ has_timer id xs
has_timer-filter id gone [] h = refl
has_timer-filter id gone (x ∷ xs) h = ground (arith, has_timer-filter id gone xs)

-- Some timers for every message, with the counter at least so far.
abbrev AreTimed : ℕ → List (ℕ × ℕ) → List Toast → Type 0
AreTimed n timers ts = All (λ t. (has_timer t.id timers ≡ true) × (t.id ≤ n)) ts

AreTimed-push :
    (n d : ℕ) (timers : List (ℕ × ℕ)) (ts : List Toast)
    → AreTimed n timers ts
    → AreTimed (n + 1) (timers ++ (n + 1, d) ∷ []) ts
AreTimed-push n d timers [] h = tt
AreTimed-push n d timers (t ∷ ts) h = (
  (ground (arith, has_timer-append t.id timers ((n + 1, d) ∷ [])), omega arith),
  AreTimed-push n d timers ts h.1,
)

AreTimed-remove :
    (n id : ℕ) (timers : List (ℕ × ℕ)) (ts : List Toast)
    → AreTimed n timers ts
    → AreTimed n timers (filter (λ t. not (eqb t.id id)) ts)
AreTimed-remove n id timers [] h = tt
AreTimed-remove n id timers (t ∷ ts) h = ground (arith, AreTimed-remove n id timers ts)

AreTimed-fire :
    (n id : ℕ) (timers : List (ℕ × ℕ)) (ts : List Toast)
    → AreTimed n timers ts
    → AreTimed n (filter (λ t. not (eqb t.0 id)) timers) (filter (λ t. not (eqb t.id id)) ts)
AreTimed-fire n id timers [] h = tt
AreTimed-fire n id timers (t ∷ ts) h =
    ground (arith, AreTimed-fire n id timers ts, has_timer-filter t.id id timers)

act-IsTimed : (a : Action) (s : Toasts) → IsTimed s → IsTimed (act a s)
unfolding act
act-IsTimed (pushes kind text) s h =
    All-append _ s.shown _ (AreTimed-push s.seq (delay kind) s.timers s.shown h) (
      (
        ground (arith, has_timer-append (s.seq + 1) s.timers ((s.seq + 1, delay kind) ∷ [])),
        omega arith,
      ),
      tt,
    )
act-IsTimed (clicks id) s h = AreTimed-remove s.seq id s.timers s.shown h
act-IsTimed (fires id) s h = AreTimed-fire s.seq id s.timers s.shown h

-- If every message shown has a timer that has not fired, that is so after any pushes, clicks and
-- timeouts.
acts-IsTimed : (as' : List Action) (s : Toasts) → IsTimed s → IsTimed (acts as' s)
unfolding acts
acts-IsTimed [] s h = h
acts-IsTimed (a ∷ as') s h = acts-IsTimed as' (act a s) (act-IsTimed a s h)

shown_nil : (n : ℕ) (ts : List Toast) → AreTimed n [] ts → ts ≡ []
shown_nil n [] h = refl
shown_nil n (t ∷ ts) h = absurd (ground arith)

-- From an empty stack on, once every timer has fired no message is left.
pub shown-eq-nil :
    (as' : List Action) → (acts as' no_toasts).timers ≡ [] → (acts as' no_toasts).shown ≡ []
shown-eq-nil as' e =
    let s = acts as' no_toasts in
    shown_nil s.seq s.shown
      (subst (λ timers. AreTimed s.seq timers s.shown) e (acts-IsTimed as' no_toasts tt))
