-- ===== src/Template/Pieces.antt =====
-- The pieces of a body are the body: scanning loses nothing, and each name is a proper name.
use Prim.Native.Nat.{zero, suc, ◌-◌}
use mathlib.Core.List.{append_assoc}
use bastiondeck.Prelude.{
  ℕ, Bool, true, Option, none, some, List, [], ◌∷◌, ◌++◌, Text, length, drop, All, ◌≡◌, ◌≢◌, refl,
  sym, ap, ◌∙◌, arith, Bool-cases, Option-cases, inl, inr, eqb,
}
use bastiondeck.Template.{
  is_name_char, is_space, span, closed, match_body, match_here, Piece, lit, hole, pieces,
}

-- The text that the pieces stand for.
abbrev pub source : List Piece → Text
source [] = []
source (lit c ∷ ps) = c ∷ source ps
source (hole whole name ∷ ps) = whole ++ source ps

-- A match is a prefix of the text where it starts, and its name is not empty and made of name
-- characters.
abbrev IsMatch : Text → Text → Text → Type 0
IsMatch s whole name =
    (r : Text) × (whole ++ r ≡ s) × (name ≢ []) × All (λ c. is_name_char c ≡ true) name

span-append : (p : ℕ → Bool) (s : Text) → (span p s).0 ++ (span p s).1 ≡ s
unfolding span
span-append p [] = refl
span-append p (c ∷ s) = ground (arith, span-append p s)

span-All : (p : ℕ → Bool) (s : Text) → All (λ c. p c ≡ true) (span p s).0
unfolding span
span-All p [] = tt
span-All p (c ∷ s) = ground (arith, span-All p s)

closed-prefix :
    (before name s whole found : Text)
    → closed before name s ≡ some (whole, found)
    → (r : Text) × (whole ++ r ≡ before ++ s) × (name ≢ []) × (found ≡ name)
unfolding closed
closed-prefix before name [] whole found h = absurd (cc)
closed-prefix before [] (c ∷ s) whole found h = absurd (cc)
closed-prefix before (n ∷ name) (c ∷ s) whole found h = elim (Bool-cases (eqb c b'}')) [
  | inl brace ↦
      let whole_is : before ++ c ∷ [] ≡ whole = ground arith in
      let found_is : ◌≡◌ {A = Text} found (n ∷ name) = ground arith in
      (s, ap (λ w. w ++ s) (sym whole_is) ∙ append_assoc before (c ∷ []) s, (λ e. cc), found_is)
  | inr other ↦ absurd (ground arith)
]

match_body-IsMatch :
    (s whole name : Text) → match_body s ≡ some (whole, name) → IsMatch s whole name
unfolding match_body
match_body-IsMatch s whole name h =
    let s1 = (span is_space s).1 in
    let s2 = (span is_name_char s1).1 in
    let (r, prefix, proper, same) =
      closed-prefix ((span is_space s).0 ++ (span is_name_char s1).0 ++ (span is_space s2).0)
        (span is_name_char s1).0 (span is_space s2).1 whole name h in
    (
      r,
      prefix
          ∙ (simp append_assoc
              (rw (span-append is_space s2, span-append is_name_char s1, span-append is_space s))),
      (λ e. proper (sym same ∙ e)),
      rw same (span-All is_name_char s1),
    )

match_here-IsMatch :
    (s whole name : Text) → match_here s ≡ some (whole, name) → IsMatch s whole name × (whole ≢ [])
unfolding match_here
match_here-IsMatch [] whole name h = absurd (cc)
match_here-IsMatch (d ∷ []) whole name h = absurd (cc)
match_here-IsMatch (d ∷ b ∷ s) whole name h = elim (Option-cases (match_body s)) [
  | inl missed ↦ absurd (ground arith)
  | inr ((w, n), matched) ↦
      let (r, prefix, proper, chars) = match_body-IsMatch s w n matched in
      let dollar : d ≡ b'$' = ground arith in
      let brace : b ≡ b'{' = ground arith in
      let whole_is : ◌≡◌ {A = Text} (b'$' ∷ b'{' ∷ w) whole = ground arith in
      let name_is : n ≡ name = ground arith in
      (
        (
          r,
          ap (λ v. v ++ r) (sym whole_is) ∙ cc (dollar, brace, prefix),
          (λ e. proper (name_is ∙ e)),
          rw (← name_is) chars,
        ),
        (λ e. cc),
      )
]

drop_whole : (w r : Text) → drop (length w) (w ++ r) ≡ r
drop_whole [] r = refl
drop_whole (c ∷ w) r = drop_whole w r

resume :
    (c : ℕ) (s whole : Text) {name : Text}
    → IsMatch (c ∷ s) whole name × (whole ≢ [])
    → whole ++ drop (length whole - 1) s ≡ c ∷ s
resume c s [] (_, h) = absurd (h refl)
resume c s (x ∷ w) ((r, prefix, _, _), _) =
    let rest : w ++ r ≡ s = cc in
    let passed : suc (length w) - 1 ≡ length w = omega arith in
    rw (passed, ← rest, drop_whole w r) (prefix ∙ cc)

-- What is left after `n` units is scanned without loss.
source-pieces-drop : (n : ℕ) (s : Text) → source (pieces n s) ≡ drop n s
unfolding pieces
source-pieces-drop zero [] = refl
source-pieces-drop (suc n) [] = refl
source-pieces-drop (suc n) (c ∷ s) = source-pieces-drop n s
source-pieces-drop zero (c ∷ s) =
    go (match_here (c ∷ s)) refl (source-pieces-drop zero s) (λ n. source-pieces-drop n s)
  where
    go :
        (m : Option (Text × Text))
        → match_here (c ∷ s) ≡ m
        → source (pieces zero s) ≡ s
        → ((n : ℕ) → source (pieces n s) ≡ drop n s)
        → source (pieces zero (c ∷ s)) ≡ c ∷ s
    go none e here later = rw (e, pieces) (ap (λ r. c ∷ r) here)
    go (some (whole, name)) e here later =
        rw (e, pieces)
          (ap (λ r. whole ++ r) (later (length whole - 1))
            ∙ resume c s whole (match_here-IsMatch (c ∷ s) whole name e))

-- Every match has a name that is not empty and made of name characters.
abbrev pub IsProper : Piece → Type 0
IsProper (lit c) = Unit
IsProper (hole whole name) = (name ≢ []) × All (λ c. is_name_char c ≡ true) name

-- Whatever is left to skip of a match, each match among the pieces of a text has a name that is not
-- empty and made of name characters.
pieces-IsProper : (n : ℕ) (s : Text) → All IsProper (pieces n s)
unfolding pieces
pieces-IsProper zero [] = tt
pieces-IsProper (suc n) [] = tt
pieces-IsProper (suc n) (c ∷ s) = pieces-IsProper n s
pieces-IsProper zero (c ∷ s) = go (match_here (c ∷ s)) refl (λ n. pieces-IsProper n s)
  where
    go :
        (m : Option (Text × Text))
        → match_here (c ∷ s) ≡ m
        → ((n : ℕ) → All IsProper (pieces n s))
        → All IsProper (pieces zero (c ∷ s))
    go none e later = rw (e, pieces) (tt, later zero)
    go (some (whole, name)) e later =
        let ((_, _, proper, chars), _) = match_here-IsMatch (c ∷ s) whole name e in
        rw (e, pieces) ((proper, chars), later (length whole - 1))

-- Scanning a body loses and adds nothing: its pieces, put together again, are the body.
pub source-pieces : (body : Text) → source (pieces zero body) ≡ body
source-pieces body = source-pieces-drop zero body
