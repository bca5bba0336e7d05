-- ===== src/Prelude/Decimal.antt =====
-- A whole number in a template literal: its decimal digits.
use bastiondeck.Prelude.Tests.{ltb, if◌then◌else◌}
use bastiondeck.Prelude.Texts.{Text}
use Prim.Native.Nat.{ℕ, zero, suc, ◌+◌, ◌-◌, ◌*◌, ◌/◌, ◌%◌, ◌<◌}
use mathlib.Core.Path.{◌≡◌}
use mathlib.Core.Logic.{inl, inr}
use mathlib.Core.List.{[], ◌∷◌, ◌++◌, foldl, foldl-append}
use native.Mathlib.Omega.{arith}
use bastiondeck.Prelude.Tests.{Bool-cases}

-- With more fuel than the number the digits are complete: `show` gives it.
show_from : ℕ → ℕ → Text
show_from zero n = []
show_from (suc fuel) n =
    let higher = show_from fuel (n / 10) in
    if ltb n 10 then (48 + n) ∷ [] else higher ++ (48 + n % 10) ∷ []

unfoldable pub show : ℕ → Text
unfolding show_from
show n = show_from (suc n) n

abbrev pub read : Text → ℕ
read = foldl (λ n c. n * 10 + (c - 48)) 0

read-show_from : (fuel n : ℕ) → n < fuel → read (show_from fuel n) ≡ n
unfolding show_from
read-show_from zero n h = elim h [ ]
read-show_from (suc fuel) n h = elim (Bool-cases (ltb n 10)) [
  | inl small ↦ rw small (omega arith)
  | inr big ↦ rw (big, foldl-append) (omega (arith, read-show_from fuel (n / 10) (ground arith)))
]

-- The digits denote the number.
pub read-show : (n : ℕ) → read (show n) ≡ n
unfolding show
read-show n = read-show_from (suc n) n (omega arith)
