-- ===== src/Pages/Tail.antt =====
-- web/src/pages/RunDetail.tsx: how the page tails the output of the selected target. What the server
-- answers comes with the steps.
pub mod Faithful
use bastiondeck.Prelude.{
  ℕ, ◌≤◌, Bool, true, false, List, [], ◌∷◌, ◌++◌, Text, if◌then◌else◌, ◌≡◌, ◌≢◌, refl, sym, ◌&&◌,
  not, filter, ◌==◌, arith, Bool-cases, inl, inr,
}
use bastiondeck.Hooks.Async.{is_there, without}

-- `active` and `stream`
pub record Source : Type 0 where
  pub target : Text
  pub stream : Text

-- Nothing changes, and no effect runs again, when what is selected already is selected.
unfoldable pub is_same : Source → Source → Bool
unfolding ◌==◌
is_same k j = k.target == j.target && k.stream == j.stream

-- A call that is on its way: from where it asks for what, and whether the effect that made it has left
-- a function that stops it. Of a run that is not live, the effect returns before it does.
pub record Asked : Type 0 where
  pub source : Source
  pub offset : ℕ
  pub stops : Bool

abbrev pub asked_from : Source → ℕ → Bool → Asked
asked_from k o b = record { source = k; offset = o; stops = b }

-- `text`, `offsetRef`, `live`, what is selected, and the calls that are on their way and not stopped,
-- oldest first.
pub record Tail : Type 0 where
  pub text : Text
  pub offset : ℕ
  pub source : Source
  pub live : Bool
  pub in_flight : List Asked

-- The page when the run has been loaded: the first call is made. (A run without targets has nothing
-- to select, and none is made.)
abbrev pub opened : Source → Bool → Tail
opened k live = record {
  text = [];
  offset = 0;
  source = k;
  live = live;
  in_flight = asked_from k 0 live ∷ [];
}

pub data Pull : Type 0 where
  asks : Pull
  answers : ℕ → Text → ℕ → Pull
  throws : ℕ → Pull
  turns : Bool → Pull
  selects : Source → Pull

abbrev pub is_same_bool : Bool → Bool → Bool
is_same_bool true b = b
is_same_bool false b = not b

-- `setText((t) => t + r.chunk)` with an empty chunk does nothing, and keeps the offset.
abbrev pub received : Text → ℕ → Tail → Tail
received [] n s = s
received (c ∷ chunk) n s = record s { text = s.text ++ c ∷ chunk; offset = n }

-- The calls that are still on their way when the effect runs again
abbrev pub going : List Asked → List Asked
going cs = filter (λ c. not c.stops) cs

-- The interval, of a live run, asks again whether or not the last call has been answered; any call on
-- its way may be answered next. The effect runs again when `live` changes or another source is selected.
unfoldable pub pull_step : Pull → Tail → Tail
unfolding is_same
pull_step asks s =
    if s.live
    then record s { in_flight = s.in_flight ++ asked_from s.source s.offset true ∷ [] }
    else s
pull_step (answers i chunk n) s =
    if is_there i s.in_flight
    then received chunk n (record s { in_flight = without i s.in_flight })
    else s
pull_step (throws i) s =
    if is_there i s.in_flight then record s { in_flight = without i s.in_flight } else s
pull_step (turns live) s = record s {
  live = live;
  in_flight =
      if is_same_bool s.live live
      then s.in_flight
      else going s.in_flight ++ asked_from s.source s.offset live ∷ [];
}
pull_step (selects k) s = if is_same s.source k then s else record s {
  text = [];
  offset = 0;
  source = k;
  in_flight = going s.in_flight ++ asked_from k 0 s.live ∷ [];
}

unfoldable pub pull_run : List Pull → Tail → Tail
unfolding pull_step
pull_run [] s = s
pull_run (p ∷ ps) s = pull_run ps (pull_step p s)

-- In any state of a live run with no call on its way, if the interval asks again before the first
-- answer, and both are answered by the same text that is not empty, that text is shown twice, though
-- the offset is that of the answers.
pub overlapping_pulls :
    (before chunk : Text) (k : Source) (o n : ℕ)
    → chunk ≢ []
    → pull_run
        (asks ∷ asks ∷ answers 0 chunk n ∷ answers 0 chunk n ∷ [])
        (record { text = before; offset = o; source = k; live = true; in_flight = [] })
      ≡ record {
        text = (before ++ chunk) ++ chunk;
        offset = n;
        source = k;
        live = true;
        in_flight = [];
      }
unfolding pull_run
overlapping_pulls before [] k o n h = absurd (h refl)
overlapping_pulls before (c ∷ chunk) k o n h = refl

-- On the page of a run that is not live, if another stream is selected before the first call is
-- answered, and both calls are answered by texts that are not empty, the text shown for the second
-- stream begins with that of the first.
pub mixed_outputs :
    (k j : Source) (first second : Text) (n m : ℕ)
    → is_same k j ≡ false
    → first ≢ []
    → second ≢ []
    → pull_run (selects j ∷ answers 0 first n ∷ answers 0 second m ∷ []) (opened k false)
      ≡ record { text = first ++ second; offset = m; source = j; live = false; in_flight = [] }
unfolding pull_run pull_step
mixed_outputs k j [] second n m e h h' = absurd (h refl)
mixed_outputs k j (c ∷ first) [] n m e h h' = absurd (h' refl)
mixed_outputs k j (c ∷ first) (d ∷ second) n m e h h' = rw e refl
