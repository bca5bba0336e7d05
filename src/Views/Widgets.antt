-- ===== src/Views/Widgets.antt =====
-- web/src/components/Common.tsx: the bars of a sparkline, and which heights they have. The values
-- are taken as multiples of a unit that is a fraction of one.
use bastiondeck.Prelude.{ℕ, ◌*◌, ◌≤◌, ◌<◌, List, [], ◌∷◌, All, ltb, arith, if◌then◌else◌}
use bastiondeck.Views.{Node, bar}

-- `Math.max(a, b)`
abbrev larger : ℕ → ℕ → ℕ
larger a b = if ltb a b then b else a

-- `Math.max(1, ...values)`, where `one` units are one
unfoldable max_from : ℕ → List ℕ → ℕ
max_from one [] = one
max_from one (v ∷ vs) = max_from (larger one v) vs

-- `Math.max(4, (v / max) * 100)`, over `max`
abbrev height : ℕ → ℕ → ℕ
height top v = larger (4 * top) (v * 100)

abbrev pub bars : ℕ → List ℕ → List Node
bars top [] = []
bars top (v ∷ vs) = bar (height top v) top ∷ bars top vs

-- A bar for each value: its height in hundredths is the first number over the second.
unfoldable pub sparkline : ℕ → List ℕ → List Node
unfolding max_from
sparkline one values = bars (max_from one values) values

max_from-le : (one : ℕ) (vs : List ℕ) → one ≤ max_from one vs
unfolding max_from
max_from-le one [] = omega arith
max_from-le one (v ∷ vs) = ground (arith, max_from-le (larger one v) vs)

-- No value is above the largest.
max_from-bounds : (one : ℕ) (vs : List ℕ) → All (λ v. v ≤ max_from one vs) vs
unfolding max_from
max_from-bounds one [] = tt
max_from-bounds one (v ∷ vs) =
    (ground (arith, max_from-le (larger one v) vs), max_from-bounds (larger one v) vs)

-- A bar is a number, at least four and at most a hundred hundredths high.
abbrev pub IsInFrame : Node → Type 0
IsInFrame (bar n d) = (0 < d) × (4 * d ≤ n) × (n ≤ 100 * d)
IsInFrame _ = ⊥

bars-IsInFrame :
    (top : ℕ) (vs : List ℕ) → 0 < top → All (λ v. v ≤ top) vs → All IsInFrame (bars top vs)
bars-IsInFrame top [] p h = tt
bars-IsInFrame top (v ∷ vs) p (h, hs) =
    ((p, ground arith, ground arith), bars-IsInFrame top vs p hs)

-- Whatever the values, all zero included, every bar of a sparkline has a height that is a number
-- between four and a hundred percent, if one is a positive number of the units of the values.
pub sparkline-IsInFrame : (one : ℕ) (vs : List ℕ) → 0 < one → All IsInFrame (sparkline one vs)
unfolding sparkline
sparkline-IsInFrame one vs p =
    bars-IsInFrame (max_from one vs) vs (omega (arith, max_from-le one vs)) (max_from-bounds one vs)
