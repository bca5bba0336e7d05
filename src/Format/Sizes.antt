-- ===== src/Format/Sizes.antt =====
-- The unit of a size is the largest that the size reaches, up to TiB.
use native.Mathlib.Nat.{pow-suc}
use native.Mathlib.Numerals.{add-one}
use bastiondeck.Prelude.{
  ℕ, zero, suc, ◌+◌, ◌*◌, ◌^◌, ◌≤◌, ◌<◌, leb, ltb, true, false, ◌&&◌, ◌≡◌, ◌⊎◌, inl, inr, refl,
  arith, Bool-cases,
}
use bastiondeck.Format.{unit_from, unit_of}

-- The divisor goes with the index; the size reaches it, unless the index is 0; and the size is
-- below the next unit, unless the index is the last.
abbrev pub IsUnit : ℕ → ℕ → ℕ × ℕ → Type 0
IsUnit last n u =
    (u.1 ≡ 1024 ^ u.0) × (u.0 ≤ last) × ((u.0 ≡ 0) ⊎ (u.1 ≤ n)) × ((u.0 ≡ last) ⊎ (n < u.1 * 1024))

unit_from-IsUnit :
    (rounds n d i last : ℕ)
    → d ≡ 1024 ^ i
    → i + rounds ≡ last
    → (i ≡ 0) ⊎ (d ≤ n)
    → IsUnit last n (unit_from rounds n d i)
unfolding unit_from
unit_from-IsUnit zero n d i last p q h = (p, omega arith, h, inl (omega arith))
unit_from-IsUnit (suc rounds) n d i last p q h = elim (Bool-cases (leb (d * 1024) n)) [
  | inl more ↦ rw more (
      unit_from-IsUnit rounds n (d * 1024) (i + 1) last (rw (p, add-one, pow-suc)) (omega arith)
        (inr (ground arith)))
  | inr enough ↦ rw enough (p, omega arith, h, inr (ground arith))
]

-- A size is shown in the largest of the units B, KiB, MiB, GiB and TiB that it reaches.
unit_of-IsUnit : (n : ℕ) → IsUnit 4 n (unit_of n)
unfolding unit_of
unit_of-IsUnit n = unit_from-IsUnit 4 n 1 0 4 refl refl (inl refl)

-- The loop as it is written, with no bound on its rounds: `v` is `n / d`, and `last` the last index.
pub data Loops (n last : ℕ) : ℕ → ℕ → ℕ × ℕ → Type 0 where
  ends : {d i : ℕ} → (leb (d * 1024) n && ltb i last) ≡ false → Loops n last d i (i, d)
  goes_on :
      {d i : ℕ} {u : ℕ × ℕ}
      → (leb (d * 1024) n && ltb i last) ≡ true
      → Loops n last (d * 1024) (i + 1) u
      → Loops n last d i u

Loops-unit_from :
    (rounds n d i last : ℕ) → i + rounds ≡ last → Loops n last d i (unit_from rounds n d i)
unfolding unit_from
Loops-unit_from zero n d i last q = ends (ground arith)
Loops-unit_from (suc rounds) n d i last q = elim (Bool-cases (leb (d * 1024) n)) [
  | inl more ↦
      rw more
        (goes_on (ground arith) (Loops-unit_from rounds n (d * 1024) (i + 1) last (omega arith)))
  | inr enough ↦ rw enough (ends (ground arith))
]

-- For every size the loop that looks for its unit ends, after however many rounds its own test
-- allows, and leaves the largest of the units B, KiB, MiB, GiB and TiB that the size reaches, with
-- its divisor.
pub Loops-unit_of : (n : ℕ) → Loops n 4 1 0 (unit_of n) × IsUnit 4 n (unit_of n)
unfolding unit_of
Loops-unit_of n = (Loops-unit_from 4 n 1 0 4 refl, unit_of-IsUnit n)
