-- ===== src/Format/Modes.antt =====
-- The permission string holds the nine low bits of the mode.
use bastiondeck.Prelude.{
  ℕ, ◌+◌, ◌*◌, ◌/◌, ◌%◌, ◌^◌, eqb, Text, [], ◌∷◌, ◌≡◌, refl, arith, length, if◌then◌else◌,
}
use bastiondeck.Format.{mode_char, mode_string}

-- Read a permission string as a binary number, a dash for 0.
abbrev decode : ℕ → Text → ℕ
decode n [] = n
decode n (c ∷ s) = decode (n * 2 + (if eqb c b'-' then 0 else 1)) s

bit_of_mode_char :
    (mode shift : ℕ) → (if eqb (mode_char mode shift) b'-' then 0 else 1) ≡ (mode / 2 ^ shift) % 2
unfolding mode_char
bit_of_mode_char mode shift = ground arith

-- The nine characters of a mode's string are its permission bits, the highest first.
decode-mode_string :
    (mode : ℕ) → (decode 0 (mode_string mode) ≡ mode % 512) × (length (mode_string mode) ≡ 9)
unfolding mode_string
decode-mode_string mode = (simp bit_of_mode_char (omega arith), refl)
