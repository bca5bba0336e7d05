-- ===== src/Tests/Requests.antt =====
-- Requests, responses, the state of `useAsync`, and the tail of a run's output.
use bastiondeck.Prelude.{
  ◌==◌, ℕ, zero, suc, ap, ◌∙◌, ◌+◌, ◌-◌, ◌≤◌, true, false, none, some, [], ◌∷◌, ◌++◌, Text, js, ◌≡◌,
  ◌≢◌, ◌⊎◌, refl, if◌then◌else◌, arith,
}
use bastiondeck.Hooks.{ok}
use bastiondeck.Hooks.Async.{Async, change, answer, step, run}
use bastiondeck.Hooks.Order.{
  waiting, Reach, start, next, answers, IsCurrent, IsCurrent-of_in_order, overtaken_answer,
}
use bastiondeck.Prelude.Json.{str}
use bastiondeck.Client.{Response, receive, api_error, build}
use bastiondeck.Client.Headers.{header}
use bastiondeck.Client.Responses.{IsRejected, parsed_of, receive_not_ok}
use bastiondeck.Endpoints.Work.{RunOp}
use bastiondeck.Endpoints.Operations.{Operation, run_op, call, csrf-call}
use bastiondeck.Server.Csrf.{csrf_guard, is_safe_method}
use bastiondeck.Pages.Tail.Faithful.{Serial, ReachesTail, text-eq-chunk}
use bastiondeck.Pages.Tail.{
  is_same, asked_from, Tail, Pull, pull_step, pull_run, Source, opened, overlapping_pulls,
  mixed_outputs,
}

abbrev bad_gateway : Response
bad_gateway = record { ok = false; status = 502; status_text = js "Bad Gateway"; text = js "oops" }

receive_not_ok_example :
    IsRejected bad_gateway (parsed_of (λ s. none) bad_gateway) (receive (λ s. none) bad_gateway)
receive_not_ok_example = receive_not_ok (λ s. none) bad_gateway refl

receive-bad_gateway :
    receive (λ s. none) bad_gateway ≡ api_error 502 (str (js "http_error")) (str (js "Bad Gateway"))
unfolding receive
receive-bad_gateway = refl

abbrev cancel_it : Operation
cancel_it = run_op (RunOp.cancel (js "r1"))

csrf-call_example :
    let c = call cancel_it in
    let headers =
      (build (λ q. []) (λ b. []) (some (js "t0")) c.method c.path c.body c.query).headers in
    (csrf_guard c.method headers ≡ true)
    × (header (js "X-BDK-CSRF") headers ≡ (if is_safe_method c.method then none else some (js "1")))
csrf-call_example = csrf-call (λ q. []) (λ b. []) (some (js "t0")) cancel_it

-- A page that shows its key's successor.
abbrev IsNext : ℕ → ℕ → Type 0
IsNext k a = a ≡ k + 1

abbrev loaded : Async ℕ ℕ
loaded = waiting (record { value = some 4; error = none; loading = false }) 3 []

loaded-Reach : Reach IsNext 3 loaded
unfolding step
loaded-Reach =
    next start (answers (record { value = none; error = none; loading = true }) 3 3 [] 4 refl)

IsCurrent-of_in_order_example : (loaded.error ≢ none) ⊎ IsCurrent IsNext loaded
IsCurrent-of_in_order_example = IsCurrent-of_in_order IsNext loaded loaded-Reach refl

overtaken_answer_example :
    run {K = ℕ} {A = ℕ}
      (change 1 ∷ change 2 ∷ answer 1 (ok 3) ∷ answer 0 (ok 2) ∷ [])
      (waiting (record { value = none; error = none; loading = false }) 0 [])
    ≡ waiting (record { value = some 2; error = none; loading = false }) 2 []
overtaken_answer_example =
    overtaken_answer (record { value = none; error = none; loading = false }) 0 1 2 2 3

-- A stream of as many letters as its offset, whatever it is of.
unfoldable letters : ℕ → Text
letters zero = []
letters (suc n) = b'a' ∷ letters n

unfoldable between : Source → ℕ → ℕ → Text
unfolding letters
between k a b = letters (b - a)

between_empty : (k : Source) (a : ℕ) → between k a a ≡ []
unfolding between
between_empty k a = let same : a - a ≡ 0 = omega arith in rw same refl

letters-append : (a b : ℕ) → letters a ++ letters b ≡ letters (a + b)
unfolding letters
letters-append zero b = let sum : b ≡ 0 + b = omega arith in ap letters sum
letters-append (suc a) b =
    let sum : suc (a + b) ≡ suc a + b = omega arith in
    ap (λ s. b'a' ∷ s) (letters-append a b) ∙ ap letters sum

between_append :
    (k : Source) (a b c : ℕ)
    → a ≤ b
    → b ≤ c
    → Unit {0}
    → between k a b ++ between k b c ≡ between k a c
unfolding between
between_append k a b c p q _ =
    let sum : b - a + (c - b) ≡ c - a = omega arith in
    letters-append (b - a) (c - b) ∙ ap letters sum

abbrev out_of : Text → Source
out_of id = record { target = id; stream = js "stdout" }

-- The first call, answered up to offset 3.
abbrev three : Tail
three = record {
  text = letters 3;
  offset = 3;
  source = out_of (js "t1");
  live = true;
  in_flight = [];
}

-- Every offset of letters is between two of them.
abbrev Anywhere : Source → ℕ → Type 0
Anywhere k a = Unit

three-ReachesTail : ReachesTail between Anywhere (λ k. tt) between_empty between_append three
unfolding pull_step between letters
three-ReachesTail = ReachesTail.next (ReachesTail.start (out_of (js "t1")) true) (
    Serial.answer (opened (out_of (js "t1")) true) (asked_from (out_of (js "t1")) 0 true) 3 refl
      (omega arith) tt)

text-eq-chunk_example : three.text ≡ between (out_of (js "t1")) 0 3
text-eq-chunk_example =
    text-eq-chunk between Anywhere (λ k. tt) between_empty between_append three three-ReachesTail

pull_run_twice :
    pull_run
      (Pull.asks ∷ Pull.asks ∷ Pull.answers 0 (js "hi") 2 ∷ Pull.answers 0 (js "hi") 2 ∷ [])
      (record three { text = []; offset = 0 })
    ≡ record three { text = js "hihi"; offset = 2 }
pull_run_twice = overlapping_pulls [] (js "hi") (out_of (js "t1")) 0 2 (λ e. cc)

others : is_same (out_of (js "t1")) (out_of (js "t2")) ≡ false
unfolding is_same ◌==◌
others = refl

mixed_outputs_example :
    pull_run
      (Pull.selects (out_of (js "t2"))
        ∷ Pull.answers 0 (js "one") 3
        ∷ Pull.answers 0 (js "two") 3
        ∷ [])
      (opened (out_of (js "t1")) false)
    ≡ record three { text = js "onetwo"; source = out_of (js "t2"); live = false }
mixed_outputs_example =
    mixed_outputs (out_of (js "t1")) (out_of (js "t2")) (js "one") (js "two") 3 3 others (λ e. cc)
      (λ e. cc)
