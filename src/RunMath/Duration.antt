-- ===== src/RunMath/Duration.antt =====
-- Durations in minutes and seconds.
use bastiondeck.Prelude.{
  ℕ, ◌+◌, ◌-◌, ◌*◌, ◌%◌, ◌≤◌, ◌<◌, ◌≡◌, ◌↔◌, refl, ◌∙◌, arith, Text, js, ◌++◌, [], ◌∷◌, Option,
  some, none, false, ltb, if◌then◌else◌,
}
use mathlib.Core.List.{append_assoc}
use bastiondeck.Prelude.Ints.{ℤ, pos, negsuc, lt_ℤ}
use bastiondeck.Prelude.Decimal.{show}
use bastiondeck.RunMath.Measures.{minutes_of, seconds_of, fmt_duration, span, between, duration_ms}

-- Minutes and seconds together are within half a second of the duration, and the seconds shown
-- are at most 60.
minutes_seconds_near :
    (ms : ℕ)
    → (minutes_of ms * 60000 + seconds_of ms * 1000 ≤ ms + 500)
      × (ms < minutes_of ms * 60000 + seconds_of ms * 1000 + 501)
      × (seconds_of ms ≤ 60)
unfolding minutes_of seconds_of
minutes_seconds_near ms = omega arith

-- The seconds read 60, as in "1m60s", exactly in the last half second of a minute.
seconds_of-eq-60_iff : (ms : ℕ) → (seconds_of ms ≡ 60) ↔ (59500 ≤ ms % 60000)
unfolding seconds_of
seconds_of-eq-60_iff ms = (λ e. omega arith, λ h. omega arith)

-- In the last half second of a minute, from the first minute on, the text of a duration is the whole
-- minutes and then "m60s".
pub fmt_duration-m60s :
    (to_fixed : ℕ → ℕ → ℕ → Text) (ms : ℕ)
    → 60000 ≤ ms
    → 59500 ≤ ms % 60000
    → fmt_duration to_fixed (some ms) ≡ show (minutes_of ms) ++ js "m60s"
unfolding fmt_duration
fmt_duration-m60s to_fixed ms long late =
    let sixty : seconds_of ms ≡ 60 = omega (arith, (seconds_of-eq-60_iff ms).1) in
    let not_ms : ltb ms 1000 ≡ false = ground arith in
    let not_s : ltb ms 60000 ≡ false = ground arith in
    rw (not_ms, not_s, sixty) (unfold show in simp append_assoc)

-- `x + d`
abbrev later : ℤ → ℕ → ℤ
later (pos a) d = pos (a + d)
later (negsuc a) d = if ltb a d then pos (d - a - 1) else negsuc (a - d)

later-span : (x y : ℤ) → lt_ℤ y x ≡ false → later x (span x y) ≡ y
later-span (pos a) (pos b) h = ground arith
later-span (pos a) (negsuc b) h = ground arith
later-span (negsuc a) (pos b) h = ground arith
later-span (negsuc a) (negsuc b) h = ground arith

-- A duration is given only for two time stamps that are there and parse, and leads from the first
-- to the second.
duration_ms-eq-some :
    (time : Text → Option ℤ) (start stop : Option Text) (d : ℕ)
    → duration_ms time start stop ≡ some d
    → (s : Text) × (e : Text) × (x : ℤ) × (start ≡ some s)
      × (stop ≡ some e)
      × (time s ≡ some x)
      × (time e ≡ some (later x d))
unfolding duration_ms
duration_ms-eq-some time (some (c ∷ s)) (some (b ∷ e)) d h =
    go (time (c ∷ s)) (time (b ∷ e)) refl refl h
  where
    go :
        (p q : Option ℤ)
        → time (c ∷ s) ≡ p
        → time (b ∷ e) ≡ q
        → between p q ≡ some d
        → (s' : Text) × (e' : Text) × (x : ℤ) × (◌≡◌ {A = Option Text} (some (c ∷ s)) (some s'))
          × (◌≡◌ {A = Option Text} (some (b ∷ e)) (some e'))
          × (time s' ≡ some x)
          × (time e' ≡ some (later x d))
    go (some x) (some y) p q k =
        (c ∷ s, b ∷ e, x, refl, refl, p, q ∙ ground (arith, later-span x y))
    go none q _ _ k = absurd (cc)
    go (some x) none _ _ k = absurd (cc)
duration_ms-eq-some time none stop d h = absurd (cc)
duration_ms-eq-some time (some []) stop d h = absurd (cc)
duration_ms-eq-some time (some (c ∷ s)) none d h = absurd (cc)
duration_ms-eq-some time (some (c ∷ s)) (some []) d h = absurd (cc)
