-- ===== src/Fields.antt =====
-- The text fields of the forms: `trim`, and tags written with commas between them, as in
-- web/src/pages/Snippets.tsx and web/src/pages/Hosts.tsx.
pub mod Tags
use bastiondeck.Prelude.{
  ℕ, Bool, ◌&&◌, not, List, [], ◌∷◌, Text, js, eqb, filter, is_empty, map, if◌then◌else◌,
}
use bastiondeck.Template.{is_space}
use bastiondeck.Format.{join}

unfoldable pub trim_start : Text → Text
unfolding is_space
trim_start [] = []
trim_start (c ∷ s) = let rest = trim_start s in if is_space c then rest else c ∷ s

unfoldable pub trim_end : Text → Text
unfolding is_space
trim_end [] = []
trim_end (c ∷ s) = let rest = trim_end s in if is_empty rest && is_space c then [] else c ∷ rest

-- `s.trim()`
unfoldable pub trim : Text → Text
unfolding trim_start trim_end
trim s = trim_end (trim_start s)

abbrev pub is_comma : ℕ → Bool
is_comma c = eqb c b','

abbrev pub onto_first : ℕ → List Text → List Text
onto_first c [] = (c ∷ []) ∷ []
onto_first c (s ∷ ss) = (c ∷ s) ∷ ss

-- `s.split(',')`
unfoldable pub split_commas : Text → List Text
split_commas [] = [] ∷ []
split_commas (c ∷ s) =
    let rest = split_commas s in if is_comma c then [] ∷ rest else onto_first c rest

-- `s.split(',').map((s) => s.trim()).filter(Boolean)`
unfoldable pub parse_tags : Text → List Text
unfolding split_commas trim
parse_tags s = filter (λ t. not (is_empty t)) (map trim (split_commas s))

-- `tags.join(',')`
unfoldable pub show_tags : List Text → Text
show_tags ts = join (js ",") ts
