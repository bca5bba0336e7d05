-- ===== src/RunMath/Measures.antt =====
-- web/src/lib/runmath.ts: progress and durations. Floating point is a parameter where its rounding
-- can show: the quotient of `progressPct`, and `toFixed`.
use bastiondeck.Prelude.{
  ℕ, ◌+◌, ◌-◌, ◌/◌, ◌%◌, ◌^◌, Option, none, some, [], ◌∷◌, ◌++◌, Text, js, ltb, eqb, if◌then◌else◌,
  ◌≤◌, ◌<◌, ◌≡◌,
}
use bastiondeck.Prelude.Ints.{ℤ, pos, negsuc, lt_ℤ}
use bastiondeck.Prelude.Decimal.{show}
use bastiondeck.Api.Activity.{RunSummary}

-- Double-precision division, multiplication by 100 and `Math.round`, and what the code relies on:
-- over the integers that a double holds exactly, up to 2 ^ 53, a percentage grows with the part,
-- and the whole is exactly 100 per cent.
pub record Double : Type 1 where
  pub Number : Type 0
  pub div : ℕ → ℕ → Number
  pub times : Number → ℕ → Number
  pub round : Number → ℕ
  pub mono :
      (a b c : ℕ)
      → a ≤ b
      → b ≤ 2 ^ 53
      → 0 < c
      → c ≤ 2 ^ 53
      → round (times (div a c) 100) ≤ round (times (div b c) 100)
  pub full : (c : ℕ) → 0 < c → c ≤ 2 ^ 53 → round (times (div c c) 100) ≡ 100

abbrev pub finished : RunSummary → ℕ
finished s = s.success + s.failed + s.timeout + s.cancelled + s.lost + s.skipped

unfoldable pub progress_pct : Double → RunSummary → ℕ
progress_pct d summary =
    if eqb summary.total 0
    then 0
    else d.round (d.times (d.div (finished summary) summary.total) 100)

-- `b - a` for `a <= b`
abbrev pub span : ℤ → ℤ → ℕ
span (pos a) (pos b) = b - a
span (pos a) (negsuc b) = 0
span (negsuc a) (pos b) = b + a + 1
span (negsuc a) (negsuc b) = a - b

abbrev pub between : Option ℤ → Option ℤ → Option ℕ
between none b = none
between (some a) none = none
between (some a) (some b) = if lt_ℤ b a then none else some (span a b)

-- A missing or empty time stamp is falsy. `time` is `new Date(·).getTime()`, `none` for NaN.
abbrev present : Option Text → Option Text
present none = none
present (some []) = none
present (some (c ∷ s)) = some (c ∷ s)

unfoldable pub duration_ms : (Text → Option ℤ) → Option Text → Option Text → Option ℕ
duration_ms time start stop = elim (present start) [
  | none ↦ none
  | some a ↦ elim (present stop) [ none ↦ none | some b ↦ between (time a) (time b) ]
]

-- `Math.floor(s / 60)` and `Math.round(s % 60)` for `s = ms / 1000`: halves of a second are exact in
-- floating point, and no other quotient is near enough to a half or a whole minute to be rounded
-- across it, so both are the exact results.
unfoldable pub minutes_of : ℕ → ℕ
minutes_of ms = ms / 60000

unfoldable pub seconds_of : ℕ → ℕ
seconds_of ms = (ms % 60000 + 500) / 1000

-- `to_fixed a b k` is `(a / b).toFixed(k)`.
unfoldable pub fmt_duration : (ℕ → ℕ → ℕ → Text) → Option ℕ → Text
unfolding minutes_of seconds_of
fmt_duration to_fixed none = js "—"
fmt_duration to_fixed (some ms) =
    if ltb ms 1000
    then show ms ++ js "ms"
    else if ltb ms 60000
    then to_fixed ms 1000 1 ++ js "s"
    else show (minutes_of ms) ++ js "m" ++ show (seconds_of ms) ++ js "s"
