-- ===== src/Format/Ages.antt =====
-- Ages: the number shown is the age in the unit shown, rounded down, in the largest unit that fits.
use bastiondeck.Prelude.{ℕ, suc, ◌*◌, ◌≤◌, ◌<◌, arith}
use bastiondeck.Format.{AgeUnit, seconds, minutes, hours, days, age_of}

abbrev in_seconds : AgeUnit → ℕ
in_seconds seconds = 1
in_seconds minutes = 60
in_seconds hours = 3600
in_seconds days = 86400

-- How many of a unit make the next one; days have none.
abbrev pub IsBelowNext : AgeUnit → ℕ → Type 0
IsBelowNext seconds n = n < 60
IsBelowNext minutes n = n < 60
IsBelowNext hours n = n < 24
IsBelowNext days n = 0 < n

-- The age shown is at most the age, by less than one unit, and fits its unit.
age_of_near :
    (s : ℕ)
    → ((age_of s).0 * in_seconds (age_of s).1 ≤ s)
      × (s < suc (age_of s).0 * in_seconds (age_of s).1)
      × IsBelowNext (age_of s).1 (age_of s).0
unfolding age_of
age_of_near s = ground arith
