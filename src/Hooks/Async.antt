-- ===== src/Hooks/Async.antt =====
-- `useAsync`: what a page shows of a call, and the requests that are on their way.
use bastiondeck.Prelude.{
  ℕ, zero, suc, Bool, true, false, Option, none, some, List, [], ◌∷◌, ◌++◌, Text, ◌≡◌, arith,
}
use bastiondeck.Hooks.{Outcome, ok, fail}

-- `{ data, error, loading }`
pub record View (A : Type 0) : Type 0 where
  pub value : Option A
  pub error : Option Text
  pub loading : Bool

-- `reload` after its `await`: the `try`, the `catch` and the `finally`.
unfoldable settle : {A : Type 0} → Outcome A → View A → View A
settle (ok a) v = record { value = some a; error = none; loading = false }
settle (fail message) v = record v { error = some message; loading = false }

-- `deps` are the current dependencies; `in_flight` holds, in the order of their start, the
-- dependencies of the requests that have not settled.
pub record Async (K A : Type 0) : Type 0 where
  pub view : View A
  pub open view use *
  pub deps : K
  pub in_flight : List K

abbrev pub mounted : {K A : Type 0} → K → Async K A
mounted k = record {
  view = record { value = none; error = none; loading = true };
  deps = k;
  in_flight = k ∷ [];
}

pub data Event (K A : Type 0) : Type 0 where
  change : K → Event K A
  tick : Event K A
  answer : ℕ → Outcome A → Event K A
  put : Option A → Event K A

-- A list without its element at an index.
abbrev pub without : {K : Type 0} → ℕ → List K → List K
without i [] = []
without zero (k ∷ ks) = ks
without (suc i) (k ∷ ks) = k ∷ without i ks

abbrev pub is_there : {K : Type 0} → ℕ → List K → Bool
is_there i [] = false
is_there zero (k ∷ ks) = true
is_there (suc i) (k ∷ ks) = is_there i ks

-- New dependencies start a request, and so do the interval and a call of `reload`. Any request on
-- its way may be answered next: nothing ties an answer to the dependencies of the moment.
unfoldable pub step : {K A : Type 0} → Event K A → Async K A → Async K A
unfolding settle
step (change k) s = record s { deps = k; in_flight = s.in_flight ++ k ∷ [] }
step tick s = record s { in_flight = s.in_flight ++ s.deps ∷ [] }
step (answer i r) s = elim (is_there i s.in_flight) [
  | true ↦ record s { view = settle r s.view; in_flight = without i s.in_flight }
  | false ↦ s
]
step (put v) s = record s { view = record s.view { value = v } }

unfoldable pub run : {K A : Type 0} → List (Event K A) → Async K A → Async K A
unfolding step
run [] s = s
run (e ∷ es) s = run es (step e s)

-- Once something has settled, `loading` is never set again, whatever happens.
loading-step :
    {K A : Type 0} (e : Event K A) (s : Async K A) → s.loading ≡ false → (step e s).loading ≡ false
unfolding step
loading-step (change k) s h = h
loading-step tick s h = h
loading-step (answer i (ok a)) s h = ground arith
loading-step (answer i (fail m)) s h = ground arith
loading-step (put v) s h = h

-- From a state that is not loading, no sequence of events leads to one that is: a reload never shows
-- as loading.
loading-run :
    {K A : Type 0} (es : List (Event K A)) (s : Async K A)
    → s.loading ≡ false
    → (run es s).loading ≡ false
unfolding run
loading-run [] s h = h
loading-run (e ∷ es) s h = loading-run es (step e s) (loading-step e s h)
