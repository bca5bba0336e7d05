-- ===== src/Hooks/Debounce.antt =====
-- `useDebouncedValue`: the value that is passed on, and the timer that will pass on the next one.
use bastiondeck.Prelude.{Option, none, some, List, [], ◌∷◌, ◌≡◌, refl}

pub record Debounced (A : Type 0) : Type 0 where
  pub current : A
  pub shown : A
  pub timer : Option A

-- The effect runs on mount too, so a timer is set from the start.
abbrev debounced : {A : Type 0} → A → Debounced A
debounced a = record { current = a; shown = a; timer = some a }

pub data Turn (A : Type 0) : Type 0 where
  rerender : A → Turn A
  fire : Turn A

-- A new value clears the timer and sets another; a timer passes on the value it was set with.
unfoldable turn : {A : Type 0} → Turn A → Debounced A → Debounced A
turn (rerender a) s = record s { current = a; timer = some a }
turn fire s = elim s.timer [ none ↦ s | some a ↦ record s { shown = a; timer = none } ]

unfoldable turns : {A : Type 0} → List (Turn A) → Debounced A → Debounced A
unfolding turn
turns [] s = s
turns (t ∷ ts) s = turns ts (turn t s)

-- A set timer holds the current value, and with no timer set the value passed on is current.
abbrev pub IsUpToDate : {A : Type 0} → Debounced A → Option A → Type 0
IsUpToDate s none = s.shown ≡ s.current
IsUpToDate s (some a) = a ≡ s.current

fire-IsUpToDate :
    {A : Type 0} (c v : A) (o : Option A)
    → IsUpToDate (record { current = c; shown = v; timer = o }) o
    → let s = turn fire (record { current = c; shown = v; timer = o }) in IsUpToDate s s.timer
unfolding turn
fire-IsUpToDate c v none h = h
fire-IsUpToDate c v (some a) h = h

turn-IsUpToDate :
    {A : Type 0} (t : Turn A) (s : Debounced A)
    → IsUpToDate s s.timer
    → IsUpToDate (turn t s) (turn t s).timer
unfolding turn
turn-IsUpToDate (rerender a) s h = refl
turn-IsUpToDate fire s h = fire-IsUpToDate s.current s.shown s.timer h

turns-IsUpToDate :
    {A : Type 0} (ts : List (Turn A)) (s : Debounced A)
    → IsUpToDate s s.timer
    → IsUpToDate (turns ts s) (turns ts s).timer
unfolding turns
turns-IsUpToDate [] s h = h
turns-IsUpToDate (t ∷ ts) s h = turns-IsUpToDate ts (turn t s) (turn-IsUpToDate t s h)

fired :
    {A : Type 0} (c v : A) (o : Option A)
    → IsUpToDate (record { current = c; shown = v; timer = o }) o
    → (turn fire (record { current = c; shown = v; timer = o })).shown ≡ c
unfolding turn
fired c v none h = h
fired c v (some a) h = h

-- After any sequence of new values and expiries, an expiry makes the value passed on the current one.
shown-fire :
    {A : Type 0} (a : A) (ts : List (Turn A))
    → (turn fire (turns ts (debounced a))).shown ≡ (turns ts (debounced a)).current
unfolding turn
shown-fire a ts =
    let s = turns ts (debounced a) in
    let h = turns-IsUpToDate ts (debounced a) refl in fired s.current s.shown s.timer h
