-- ===== src/Prelude/Texts.antt =====
-- JavaScript strings as the UTF-16 code units that they hold: `length`, `slice` and the order of
-- `sort` are those of the list of units.
use Prim.Native.Nat.{ℕ, ◌+◌, ◌-◌, ◌/◌, ◌%◌}
use Prim.Native.Char.{code}
use Prim.Native.String.{String}
use mathlib.Core.Path.{◌≡◌, refl}
use mathlib.Core.Logic.{◌↔◌}
use mathlib.Core.Bool.{Bool, true, false, ◌&&◌}
use mathlib.Core.List.{List, [], ◌∷◌}
use native.Mathlib.Omega.{arith}
use bastiondeck.Prelude.Tests.{ltb, eqb, if◌then◌else◌}

abbrev pub Text : Type 0
Text = List ℕ

-- The units of one code point: a surrogate pair above 0xFFFF.
abbrev encode : ℕ → Text → Text
encode c s =
    if ltb c 0x10000
    then c ∷ s
    else (0xD800 + (c - 0x10000) / 0x400) ∷ (0xDC00 + (c - 0x10000) % 0x400) ∷ s

-- A string literal of the source.
abbrev pub js : String → Text
js String.[] = []
js (String.◌∷◌ c s) = encode (code c) (js s)

infix 50 ◌==◌
-- `===` on strings
unfoldable pub ◌==◌ : Text → Text → Bool
[] == [] = true
[] == (b ∷ t) = false
(a ∷ s) == [] = false
(a ∷ s) == (b ∷ t) = eqb a b && s == t

==_sound : (s t : Text) → s == t ≡ true → s ≡ t
unfolding ◌==◌
==_sound [] [] h = refl
==_sound [] (b ∷ t) h = ground arith
==_sound (a ∷ s) [] h = ground arith
==_sound (a ∷ s) (b ∷ t) h = ground (arith, ==_sound s t)

pub ==_refl : (s : Text) → s == s ≡ true
unfolding ◌==◌
==_refl [] = refl
==_refl (a ∷ s) = ground (arith, ==_refl s)

pub ==_iff : (s t : Text) → (s == t ≡ true) ↔ (s ≡ t)
==_iff s t = (==_sound s t, λ e. rw e (==_refl t))

pub ==_sym : (s t : Text) → s == t ≡ t == s
==_sym s t = ground (arith, ==_iff s t, ==_iff t s)

-- `!s` for a string
abbrev pub is_empty : Text → Bool
is_empty [] = true
is_empty (c ∷ s) = false
