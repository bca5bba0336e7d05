-- ===== src/Template.antt =====
-- web/src/lib/selection.ts: the `${var}` templates. The regular expression is
-- /\$\{\s*([a-zA-Z0-9_.-]+)\s*\}/g; white space, name characters and the brace exclude one another,
-- so its greedy match never has to give back a character.
pub mod Pieces
pub mod Render
pub mod Fill
use Prim.Native.Nat.{zero, suc, ◌+◌, ◌-◌}
use bastiondeck.Prelude.{
  ℕ, Bool, true, false, ◌&&◌, ◌||◌, Option, none, some, List, [], ◌∷◌, ◌++◌, Text, js, ◌==◌,
  contains, add, is_empty, length, eqb, leb, if◌then◌else◌,
}
use bastiondeck.Prelude.Sort.{sort}
use bastiondeck.Prelude.Objects.{Slot, own, inherited, absent}

-- [a-zA-Z0-9_.-]
unfoldable pub is_name_char : ℕ → Bool
is_name_char c =
    (leb b'a' c && leb c b'z')
    || (leb b'A' c && leb c b'Z')
    || (leb b'0' c && leb c b'9')
    || eqb c b'_'
    || eqb c b'.'
    || eqb c b'-'

-- \s
unfoldable pub is_space : ℕ → Bool
is_space c =
    (leb 9 c && leb c 13)
    || eqb c 32
    || eqb c 0xA0
    || eqb c 0x1680
    || (leb 0x2000 c && leb c 0x200A)
    || eqb c 0x2028
    || eqb c 0x2029
    || eqb c 0x202F
    || eqb c 0x205F
    || eqb c 0x3000
    || eqb c 0xFEFF

-- The longest prefix of units that pass a test, and the rest.
unfoldable pub span : (ℕ → Bool) → Text → Text × Text
span p [] = ([], [])
span p (c ∷ s) = let rest = span p s in if p c then (c ∷ rest.0, rest.1) else ([], c ∷ s)

-- A match at the start of the text: the whole match and its name.
unfoldable pub closed : Text → Text → Text → Option (Text × Text)
closed before name [] = none
closed before name (c ∷ s) =
    if is_empty name then none else if eqb c b'}' then some (before ++ c ∷ [], name) else none

unfoldable pub match_body : Text → Option (Text × Text)
unfolding span closed is_name_char is_space
match_body s =
    let (pre, s1) = span is_space s in
    let (name, s2) = span is_name_char s1 in
    let (post, s3) = span is_space s2 in closed (pre ++ name ++ post) name s3

abbrev opened : Option (Text × Text) → Option (Text × Text)
opened none = none
opened (some (whole, name)) = some (b'$' ∷ b'{' ∷ whole, name)

unfoldable pub match_here : Text → Option (Text × Text)
unfolding match_body
match_here [] = none
match_here (d ∷ []) = none
match_here (d ∷ b ∷ s) = if eqb d b'$' && eqb b b'{' then opened (match_body s) else none

-- A body is a sequence of units outside every match and of matches.
pub data Piece : Type 0 where
  lit : ℕ → Piece
  hole : Text → Text → Piece

-- The matches from left to right; the number counts the units of the last match still to be passed.
unfoldable pub pieces : ℕ → Text → List Piece
unfolding match_here
pieces n [] = []
pieces (suc n) (c ∷ s) = pieces n s
pieces zero (c ∷ s) = elim (match_here (c ∷ s)) [
  | none ↦ lit c ∷ pieces zero s
  | some (whole, name) ↦ hole whole name ∷ pieces (length whole - 1) s
]

unfoldable pub names_from : List Text → List Piece → List Text
names_from found [] = found
names_from found (lit c ∷ ps) = names_from found ps
names_from found (hole whole name ∷ ps) = names_from (add name found) ps

unfoldable pub required_variables : Text → List Text
unfolding names_from pieces
required_variables body = sort (names_from [] (pieces zero body))

-- `vars`, by its own properties
abbrev pub Vars : Type 0
Vars = List (Text × Text)

unfoldable pub lookup : Text → Vars → Option Text
lookup k [] = none
lookup k ((j, v) ∷ vars) = if j == k then some v else lookup k vars

-- `{ ...vars, [k]: v }`
unfoldable pub with_var : Text → Text → Vars → Vars
with_var k v [] = (k, v) ∷ []
with_var k v ((j, w) ∷ vars) = if j == k then (k, v) ∷ vars else (j, w) ∷ with_var k v vars

-- The value that is put in: an own property that is not the empty string.
unfoldable pub filled : Vars → Text → Option Text
unfolding lookup
filled vars name = elim (lookup name vars) [
  | none ↦ none
  | some [] ↦ none
  | some (c ∷ v) ↦ some (c ∷ v)
]

pub record Rendering : Type 0 where
  pub rendered : Text
  pub missing : List Text

-- The replacement of one match, with what it adds to `missing`.
unfoldable pub replace : Vars → Text → Text → Rendering → Rendering
unfolding filled
replace vars whole name r = elim (filled vars name) [
  | some v ↦ record r { rendered = r.rendered ++ v }
  | none ↦ record { rendered = r.rendered ++ whole; missing = add name r.missing }
]

unfoldable pub render_from : Vars → Rendering → List Piece → Rendering
unfolding replace
render_from vars r [] = r
render_from vars r (lit c ∷ ps) = render_from vars (record r { rendered = r.rendered ++ c ∷ [] }) ps
render_from vars r (hole whole name ∷ ps) = render_from vars (replace vars whole name r) ps

unfoldable pub render_template : Text → Vars → Rendering
unfolding render_from pieces
render_template body vars =
    render_from vars (record { rendered = []; missing = [] }) (pieces zero body)
