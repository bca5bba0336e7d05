-- ===== src/Pages/Files/Paths.antt =====
-- The paths that the file manager forms: absolute, and without a doubled slash.
use mathlib.Core.List.{append_assoc}
use bastiondeck.Prelude.{
  ℕ, Bool, true, false, ◌&&◌, ◌||◌, List, [], ◌∷◌, ◌++◌, Text, js, All, filter, is_empty, not, ◌≡◌,
  refl, ◌∙◌, ap, arith, Bool-cases, inl, inr,
}
use bastiondeck.Pages.Files.{
  is_slash, joined, cons_to_first, squeeze, without_last_slash, join, starts_with_slash, go, split,
  crumbs, slashed, all_but_last, up,
}

-- Two slashes stand side by side.
abbrev has_double : Text → Bool
has_double [] = false
has_double (c ∷ []) = false
has_double (c ∷ d ∷ s) = (is_slash c && is_slash d) || has_double (d ∷ s)

abbrev pub IsClean : Text → Type 0
IsClean p = (starts_with_slash p ≡ true) × (has_double p ≡ false)

starts_with_slash-squeeze : (s : Text) → starts_with_slash (squeeze s) ≡ starts_with_slash s
unfolding squeeze
starts_with_slash-squeeze [] = refl
starts_with_slash-squeeze (c ∷ s) = go_on (squeeze s)
  where
    go_on : (r : Text) → starts_with_slash (joined c r) ≡ is_slash c
    go_on [] = refl
    go_on (d ∷ r) = ground arith

has_double-joined : (c : ℕ) (r : Text) → has_double r ≡ false → has_double (joined c r) ≡ false
has_double-joined c [] h = refl
has_double-joined c (d ∷ r) h = ground arith

has_double-squeeze : (s : Text) → has_double (squeeze s) ≡ false
unfolding squeeze
has_double-squeeze [] = refl
has_double-squeeze (c ∷ s) = has_double-joined c (squeeze s) (has_double-squeeze s)

squeeze-IsClean : (s : Text) → starts_with_slash s ≡ true → IsClean (squeeze s)
squeeze-IsClean s h = (starts_with_slash-squeeze s ∙ h, has_double-squeeze s)

starts_below :
    (dir name : Text)
    → starts_with_slash dir ≡ true
    → starts_with_slash (without_last_slash dir ++ js "/" ++ name) ≡ true
unfolding without_last_slash
starts_below [] name h = refl
starts_below (c ∷ []) name h = ground arith
starts_below (c ∷ d ∷ s) name h = h

-- A name joined to a path that starts with a slash makes a clean path: it starts with a slash and has
-- no two side by side, whatever the name.
join-IsClean : (dir name : Text) → starts_with_slash dir ≡ true → IsClean (join dir name)
unfolding join
join-IsClean dir name h =
    squeeze-IsClean (without_last_slash dir ++ js "/" ++ name) (starts_below dir name h)

-- From a path that starts with a slash, going anywhere leads to a clean path.
go-IsClean : (path p : Text) → starts_with_slash path ≡ true → IsClean (go path p)
unfolding go
go-IsClean path p h = elim (Bool-cases (starts_with_slash p)) [
  | inl e ↦ rw e (squeeze-IsClean p e)
  | inr e ↦ rw e (squeeze-IsClean (without_last_slash path ++ js "/" ++ p) (starts_below path p h))
]

-- A segment of a path is not empty and has no slash.
abbrev pub IsSegment : Text → Type 0
IsSegment s = (is_empty s ≡ false) × All (λ c. is_slash c ≡ false) s

abbrev AreBare : List Text → Type 0
AreBare ss = All (λ s. All (λ c. is_slash c ≡ false) s) ss

cons_to_first-AreBare :
    (c : ℕ) (ss : List Text) → is_slash c ≡ false → AreBare ss → AreBare (cons_to_first c ss)
cons_to_first-AreBare c [] h k = ((h, tt), tt)
cons_to_first-AreBare c (s ∷ ss) h (k, ks) = ((h, k), ks)

pub split-AreBare : (s : Text) → AreBare (split s)
unfolding split
split-AreBare [] = (tt, tt)
split-AreBare (c ∷ s) = elim (Bool-cases (is_slash c)) [
  | inl e ↦ rw e (tt, split-AreBare s)
  | inr e ↦ rw e (cons_to_first-AreBare c (split s) e (split-AreBare s))
]

pub filter-AreSegments :
    (ss : List Text) → AreBare ss → All IsSegment (filter (λ s. not (is_empty s)) ss)
filter-AreSegments [] h = tt
filter-AreSegments ([] ∷ ss) (h, hs) = filter-AreSegments ss hs
filter-AreSegments ((c ∷ s) ∷ ss) (h, hs) = ((refl, h), filter-AreSegments ss hs)

all_but_last-All : (ss : List Text) → All IsSegment ss → All IsSegment (all_but_last ss)
all_but_last-All [] h = tt
all_but_last-All (s ∷ []) h = tt
all_but_last-All (s ∷ t ∷ ss) (h, hs) = (h, all_but_last-All (t ∷ ss) hs)

split_alone : (s : Text) → All (λ c. is_slash c ≡ false) s → split s ≡ s ∷ []
unfolding split
split_alone [] h = refl
split_alone (c ∷ s) (h, hs) = rw (h, split_alone s hs) refl

split_first :
    (s r : Text) → All (λ c. is_slash c ≡ false) s → split (s ++ js "/" ++ r) ≡ s ∷ split r
unfolding split
split_first [] r h = refl
split_first (c ∷ s) r (h, hs) = rw (h, split_first s r hs) refl

keep_segment :
    (s : Text) (ss : List Text)
    → is_empty s ≡ false
    → filter (λ s. not (is_empty s)) (s ∷ ss) ≡ s ∷ filter (λ s. not (is_empty s)) ss
keep_segment s ss h = rw h refl

pub crumbs-slashed : (ss : List Text) → All IsSegment ss → crumbs (slashed ss) ≡ ss
unfolding crumbs slashed
crumbs-slashed [] h = refl
crumbs-slashed (s ∷ []) ((h, bare), _) = rw (split_alone s bare) (keep_segment s [] h)
crumbs-slashed (s ∷ t ∷ ss) ((h, bare), hs) =
    rw (split_first s (slashed (t ∷ ss)) bare)
      (keep_segment s (split (slashed (t ∷ ss))) h ∙ rw (crumbs-slashed (t ∷ ss) hs) refl)

-- The absolute path of segments: each after a slash, and the root if there are none.
abbrev pub rooted : List Text → Text
rooted [] = js "/"
rooted (s ∷ []) = js "/" ++ s
rooted (s ∷ t ∷ ss) = js "/" ++ s ++ rooted (t ∷ ss)

slashed-eq-rooted : (ss : List Text) → js "/" ++ slashed ss ≡ rooted ss
unfolding slashed
slashed-eq-rooted [] = refl
slashed-eq-rooted (s ∷ []) = refl
slashed-eq-rooted (s ∷ t ∷ ss) =
    ap (λ r. b'/' ∷ r)
      (append_assoc s (js "/") (slashed (t ∷ ss)) ∙ ap (λ r. s ++ r) (slashed-eq-rooted (t ∷ ss)))

-- The row ".." leads to the absolute path of all segments but the last, each after one slash, or to
-- the root if there are none left, whatever slashes the path has; and that path has just these
-- segments.
pub crumbs-up :
    (path : Text)
    → (up path ≡ rooted (all_but_last (crumbs path)))
      × (crumbs (up path) ≡ all_but_last (crumbs path))
unfolding up crumbs
crumbs-up path = (
  slashed-eq-rooted (all_but_last (crumbs path)),
  crumbs-slashed (all_but_last (crumbs path))
      (all_but_last-All (crumbs path) (filter-AreSegments (split path) (split-AreBare path))),
)
