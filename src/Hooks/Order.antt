-- ===== src/Hooks/Order.antt =====
-- Which request the value on screen answers: the current one, if answers come in order; an
-- overtaken one, if they do not.
use bastiondeck.Prelude.{
  false, none, some, List, [], ◌∷◌, ◌++◌, Text, ◌≡◌, ◌≢◌, ◌⊎◌, inl, inr, refl,
}
use bastiondeck.Hooks.{ok, fail}
use bastiondeck.Hooks.Async.{View, Async, mounted, change, tick, answer, step, run}

abbrev pub waiting : {K A : Type 0} → View A → K → List K → Async K A
waiting v d ks = record { view = v; deps = d; in_flight = ks }

module _ {K A : Type 0} (Answers : K → A → Type 0) where
  -- Steps in which only the oldest request is answered, and with an answer to its dependencies.
  pub data InOrder : Async K A → Async K A → Type 0 where
    changes : (s : Async K A) (k : K) → InOrder s (step (change k) s)
    ticks : (s : Async K A) → InOrder s (step tick s)
    answers :
        (v : View A) (d k : K) (ks : List K) (a : A)
        → Answers k a
        → InOrder (waiting v d (k ∷ ks)) (step (answer 0 (ok a)) (waiting v d (k ∷ ks)))
    fails :
        (v : View A) (d k : K) (ks : List K) (m : Text)
        → InOrder (waiting v d (k ∷ ks)) (step (answer 0 (fail m)) (waiting v d (k ∷ ks)))

  pub data Reach (k : K) : Async K A → Type 0 where
    start : Reach k (mounted k)
    next : {s t : Async K A} → Reach k s → InOrder s t → Reach k t

  -- The value answers the current dependencies.
  abbrev pub IsCurrent : Async K A → Type 0
  IsCurrent s = (a : A) × (s.value ≡ some a) × Answers s.deps a

  abbrev EndsIn : K → List K → Type 0
  EndsIn k [] = ⊥
  EndsIn k (j ∷ []) = j ≡ k
  EndsIn k (j ∷ i ∷ ks) = EndsIn k (i ∷ ks)

  EndsIn-append : (k : K) (ks : List K) → EndsIn k (ks ++ k ∷ [])
  EndsIn-append k [] = refl
  EndsIn-append k (j ∷ []) = refl
  EndsIn-append k (j ∷ i ∷ ks) = EndsIn-append k (i ∷ ks)

  -- While requests are on their way the last one has the current dependencies; when none is, the
  -- value is current or an error is shown.
  abbrev Settled : Async K A → List K → Type 0
  Settled s [] = (s.error ≢ none) ⊎ IsCurrent s
  Settled s (j ∷ ks) = EndsIn s.deps (j ∷ ks)

  Settled-of_EndsIn : (s : Async K A) (ks : List K) → EndsIn s.deps ks → Settled s ks
  Settled-of_EndsIn s [] h = absurd h
  Settled-of_EndsIn s (j ∷ ks) h = h

  InOrder-Settled : {s t : Async K A} → InOrder s t → Settled s s.in_flight → Settled t t.in_flight
  unfolding step
  InOrder-Settled (changes s k) h =
      Settled-of_EndsIn (step (change k) s) (s.in_flight ++ k ∷ []) (EndsIn-append k s.in_flight)
  InOrder-Settled (ticks s) h =
      Settled-of_EndsIn (step tick s) (s.in_flight ++ s.deps ∷ [])
        (EndsIn-append s.deps s.in_flight)
  InOrder-Settled (answers v d k [] a p) h = inr (a, refl, rw (← h) p)
  InOrder-Settled (answers v d k (j ∷ ks) a p) h = h
  InOrder-Settled (fails v d k [] m) h = inl (λ e. cc)
  InOrder-Settled (fails v d k (j ∷ ks) m) h = h

  Reach-Settled : {k : K} {s : Async K A} → Reach k s → Settled s s.in_flight
  Reach-Settled start = refl
  Reach-Settled (next r i) = InOrder-Settled i (Reach-Settled r)

  -- In a state reached by steps in which answers come in the order of the requests, once no request is
  -- on its way, the value answers the current dependencies, or an error is shown.
  pub IsCurrent-of_in_order :
      {k : K} (s : Async K A) → Reach k s → s.in_flight ≡ [] → (s.error ≢ none) ⊎ IsCurrent s
  IsCurrent-of_in_order s r e = rw e at (Reach-Settled r)

-- Answers that overtake one another: in any state with no request on its way, if dependencies change
-- twice and the second request is answered first, then in the end nothing is on its way, no error is
-- shown, and the value on screen is the answer to the first, old dependencies.
pub overtaken_answer :
    {K A : Type 0} (v : View A) (d old new : K) (a b : A)
    → run (change old ∷ change new ∷ answer 1 (ok b) ∷ answer 0 (ok a) ∷ []) (waiting v d [])
      ≡ waiting (record { value = some a; error = none; loading = false }) new []
unfolding run
overtaken_answer v d old new a b = refl
