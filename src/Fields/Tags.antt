-- ===== src/Fields/Tags.antt =====
-- What a field of tags holds, and that writing and reading tags go together.
use bastiondeck.Prelude.{
  ℕ, false, ◌&&◌, not, List, [], ◌∷◌, ◌++◌, Text, js, All, filter, is_empty, map, ◌≡◌, refl, ap,
  ◌∙◌, Bool-cases, inl, inr,
}
use bastiondeck.Template.{is_space}
use bastiondeck.Format.{join}
use bastiondeck.Fields.{
  trim_start, trim_end, trim, is_comma, onto_first, split_commas, parse_tags, show_tags,
}

abbrev pub HasNoComma : Text → Type 0
HasNoComma t = All (λ c. is_comma c ≡ false) t

-- A tag is not empty, has no comma, and no white space at its ends.
abbrev pub IsTag : Text → Type 0
IsTag t = (is_empty t ≡ false) × (trim t ≡ t) × HasNoComma t

-- The head of a text that is left after `trim_start` is no white space.
abbrev IsStarted : Text → Type 0
IsStarted [] = Unit
IsStarted (c ∷ s) = is_space c ≡ false

trim_start-IsStarted : (s : Text) → IsStarted (trim_start s)
unfolding trim_start
trim_start-IsStarted [] = tt
trim_start-IsStarted (c ∷ s) = elim (Bool-cases (is_space c)) [
  | inl e ↦ rw e (trim_start-IsStarted s)
  | inr e ↦ rw e e
]

trim_start_of_IsStarted : (s : Text) → IsStarted s → trim_start s ≡ s
unfolding trim_start
trim_start_of_IsStarted [] h = refl
trim_start_of_IsStarted (c ∷ s) h = rw h refl

trim_end-IsStarted : (s : Text) → IsStarted s → IsStarted (trim_end s)
unfolding trim_end
trim_end-IsStarted [] h = tt
trim_end-IsStarted (c ∷ s) h = elim (Bool-cases (is_empty (trim_end s))) [
  | inl e ↦ rw (e, h) h
  | inr e ↦ rw e h
]

trim_end-trim_end : (s : Text) → trim_end (trim_end s) ≡ trim_end s
unfolding trim_end
trim_end-trim_end [] = refl
trim_end-trim_end (c ∷ s) = elim (Bool-cases (is_empty (trim_end s) && is_space c)) [
  | inl e ↦ rw e refl
  | inr e ↦ rw e (rw (trim_end-trim_end s, e) refl)
]

-- Trimming twice is trimming once.
trim-trim : (s : Text) → trim (trim s) ≡ trim s
unfolding trim
trim-trim s =
    let started = trim_end-IsStarted (trim_start s) (trim_start-IsStarted s) in
    rw (trim_start_of_IsStarted _ started) (trim_end-trim_end (trim_start s))

trim_start-HasNoComma : (s : Text) → HasNoComma s → HasNoComma (trim_start s)
unfolding trim_start
trim_start-HasNoComma [] h = tt
trim_start-HasNoComma (c ∷ s) (h, hs) = elim (Bool-cases (is_space c)) [
  | inl e ↦ rw e (trim_start-HasNoComma s hs)
  | inr e ↦ rw e (h, hs)
]

trim_end-HasNoComma : (s : Text) → HasNoComma s → HasNoComma (trim_end s)
unfolding trim_end
trim_end-HasNoComma [] h = tt
trim_end-HasNoComma (c ∷ s) (h, hs) = elim (Bool-cases (is_empty (trim_end s) && is_space c)) [
  | inl e ↦ rw e tt
  | inr e ↦ rw e (h, trim_end-HasNoComma s hs)
]

trim-HasNoComma : (s : Text) → HasNoComma s → HasNoComma (trim s)
unfolding trim
trim-HasNoComma s h = trim_end-HasNoComma (trim_start s) (trim_start-HasNoComma s h)

onto_first-All :
    (c : ℕ) (ss : List Text)
    → is_comma c ≡ false
    → All HasNoComma ss
    → All HasNoComma (onto_first c ss)
onto_first-All c [] h k = ((h, tt), tt)
onto_first-All c (s ∷ ss) h (k, ks) = ((h, k), ks)

split_commas-All : (s : Text) → All HasNoComma (split_commas s)
unfolding split_commas
split_commas-All [] = (tt, tt)
split_commas-All (c ∷ s) = elim (Bool-cases (is_comma c)) [
  | inl e ↦ rw e (tt, split_commas-All s)
  | inr e ↦ rw e (onto_first-All c (split_commas s) e (split_commas-All s))
]

AreTags_of_pieces :
    (ss : List Text) → All HasNoComma ss → All IsTag (filter (λ t. not (is_empty t)) (map trim ss))
AreTags_of_pieces [] h = tt
AreTags_of_pieces (s ∷ ss) (h, hs) = elim (Bool-cases (is_empty (trim s))) [
  | inl e ↦ rw e (AreTags_of_pieces ss hs)
  | inr e ↦ rw e ((e, trim-trim s, trim-HasNoComma s h), AreTags_of_pieces ss hs)
]

-- Whatever is written in a field of tags, what is read from it are tags: none is empty, has a comma
-- or white space at its ends.
pub parse_tags-IsTag : (s : Text) → All IsTag (parse_tags s)
unfolding parse_tags
parse_tags-IsTag s = AreTags_of_pieces (split_commas s) (split_commas-All s)

pub split_commas_alone : (s : Text) → HasNoComma s → split_commas s ≡ s ∷ []
unfolding split_commas
split_commas_alone [] h = refl
split_commas_alone (c ∷ s) (h, hs) = rw (h, split_commas_alone s hs) refl

split_commas_first :
    (s r : Text) → HasNoComma s → split_commas (s ++ js "," ++ r) ≡ s ∷ split_commas r
unfolding split_commas
split_commas_first [] r h = refl
split_commas_first (c ∷ s) r (h, hs) = rw (h, split_commas_first s r hs) refl

keep_tag :
    (t : Text) (ss : List Text)
    → is_empty t ≡ false
    → trim t ≡ t
    → filter (λ t. not (is_empty t)) (map trim (t ∷ ss))
      ≡ t ∷ filter (λ t. not (is_empty t)) (map trim ss)
keep_tag t ss h k = rw (k, h) refl

-- Tags that are written with commas between them are read back as they were.
pub parse_tags-show_tags : (ts : List Text) → All IsTag ts → parse_tags (show_tags ts) ≡ ts
unfolding parse_tags show_tags
parse_tags-show_tags [] h = unfold trim trim_start trim_end split_commas in refl
parse_tags-show_tags (t ∷ []) ((h, k, bare), _) = rw (split_commas_alone t bare) (keep_tag t [] h k)
parse_tags-show_tags (t ∷ u ∷ ts) ((h, k, bare), hs) =
    rw (split_commas_first t (join (js ",") (u ∷ ts)) bare) (
      keep_tag t (split_commas (join (js ",") (u ∷ ts))) h k
      ∙ ap (λ r. t ∷ r) (parse_tags-show_tags (u ∷ ts) hs))
