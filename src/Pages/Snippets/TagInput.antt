-- ===== src/Pages/Snippets/TagInput.antt =====
-- The input of tags, typed into at its end.
use bastiondeck.Prelude.{
  ℕ, ◌≤◌, false, List, [], ◌∷◌, ◌++◌, Text, All, length, filter, not, is_empty, map, ◌≡◌, refl,
  arith, Bool-cases, inl, inr, eqb_iff,
}
use bastiondeck.Fields.{trim, is_comma, split_commas, parse_tags, show_tags}
use bastiondeck.Fields.Tags.{HasNoComma, IsTag, split_commas_alone, parse_tags-IsTag}
use bastiondeck.Pages.Snippets.{Draft, new_draft, or_none, type_tag, type_tags}

-- There is one tag at most, and it has no comma.
abbrev IsOneTag : List Text → Type 0
IsOneTag [] = Unit
IsOneTag (t ∷ []) = HasNoComma t
IsOneTag (t ∷ u ∷ ts) = ⊥

IsOneTag-of_length : (ts : List Text) → length ts ≤ 1 → All IsTag ts → IsOneTag ts
IsOneTag-of_length [] h k = tt
IsOneTag-of_length (t ∷ []) h ((_, _, bare), _) = bare
IsOneTag-of_length (t ∷ u ∷ ts) h k = absurd (omega arith)

abbrev kept : List Text → List Text
kept ss = filter (λ t. not (is_empty t)) (map trim ss)

length-kept_one : (s : Text) → length (kept (s ∷ [])) ≤ 1
length-kept_one s = ground arith

HasNoComma-snoc : (t : Text) (c : ℕ) → HasNoComma t → is_comma c ≡ false → HasNoComma (t ++ c ∷ [])
HasNoComma-snoc [] c h k = (k, tt)
HasNoComma-snoc (d ∷ t) c (h, hs) k = (h, HasNoComma-snoc t c hs k)

split_commas_last : (t : Text) → HasNoComma t → split_commas (t ++ b',' ∷ []) ≡ t ∷ [] ∷ []
unfolding split_commas
split_commas_last [] h = refl
split_commas_last (c ∷ t) (h, hs) = rw (h, split_commas_last t hs) refl

length-kept_last : (t : Text) → length (kept (t ∷ [] ∷ [])) ≤ 1
unfolding trim
length-kept_last t = ground arith

length-parse_tags-snoc : (t : Text) (c : ℕ) → HasNoComma t → length (parse_tags (t ++ c ∷ [])) ≤ 1
unfolding parse_tags
length-parse_tags-snoc t c h = elim (Bool-cases (is_comma c)) [
  | inl e ↦
      let comma : c ≡ b',' = (eqb_iff c b',').0 e in
      rw (comma, split_commas_last t h) (length-kept_last t)
  | inr e ↦
      rw (split_commas_alone (t ++ c ∷ []) (HasNoComma-snoc t c h e))
        (length-kept_one (t ++ c ∷ []))
]

type_tag-IsOneTag :
    (ts : List Text) (c : ℕ) → IsOneTag ts → IsOneTag (parse_tags (show_tags ts ++ c ∷ []))
unfolding show_tags
type_tag-IsOneTag [] c h =
    IsOneTag-of_length _ (length-parse_tags-snoc [] c tt) (parse_tags-IsTag _)
type_tag-IsOneTag (t ∷ []) c h =
    IsOneTag-of_length _ (length-parse_tags-snoc t c h) (parse_tags-IsTag _)
type_tag-IsOneTag (t ∷ u ∷ ts) c h = absurd h

type_tags-IsOneTag :
    (cs : List ℕ) (d : Draft) → IsOneTag (or_none d.tags) → IsOneTag (or_none (type_tags cs d).tags)
unfolding type_tags
type_tags-IsOneTag [] d h = h
type_tags-IsOneTag (c ∷ cs) d h =
    type_tags-IsOneTag cs (type_tag c d) (unfold type_tag in type_tag-IsOneTag (or_none d.tags) c h)

length_of_IsOneTag : (ts : List Text) → IsOneTag ts → length ts ≤ 1
length_of_IsOneTag [] h = omega arith
length_of_IsOneTag (t ∷ []) h = omega arith
length_of_IsOneTag (t ∷ u ∷ ts) h = absurd h

-- Whatever is typed, character after character at the end of the input of tags, a new snippet never
-- gets a second tag, although the input asks for tags with commas between them.
pub length-type_tags : (cs : List ℕ) → length (or_none (type_tags cs new_draft).tags) ≤ 1
length-type_tags cs = length_of_IsOneTag _ (type_tags-IsOneTag cs new_draft tt)
