-- ===== src/Selection.antt =====
-- web/src/lib/selection.ts: which hosts a run will touch. (The templates of that file are in
-- Template.)
pub mod Targets
pub mod Tags
use bastiondeck.Prelude.{
  Bool, true, false, Option, none, some, List, [], ◌∷◌, ◌++◌, Text, js, ◌==◌, contains, add, filter,
  is_empty, if◌then◌else◌,
}
use bastiondeck.Prelude.Sort.{sort}
use bastiondeck.Api.Inventory.{Host}

pub data SelectionMode : Type 0 where
  all pick group tag : SelectionMode

pub record SelectionSpec : Type 0 where
  pub mode : SelectionMode
  pub picked : List Text
  pub group_id : Text
  pub tag : Text

-- `h.tags ?? []`
abbrev pub tags_of : Host → List Text
tags_of h = elim h.tags [ none ↦ [] | some ts ↦ ts ]

-- `h.groupId === id`, false if the field is missing
abbrev pub is_in_group : Text → Option Text → Bool
is_in_group id none = false
is_in_group id (some g) = g == id

abbrev pub by_mode : SelectionMode → List Host → SelectionSpec → List Host
by_mode all hosts spec = hosts
by_mode pick hosts spec = filter (λ h. contains h.id spec.picked) hosts
by_mode group hosts spec =
    if is_empty spec.group_id then [] else filter (λ h. is_in_group spec.group_id h.group_id) hosts
by_mode tag hosts spec =
    if is_empty spec.tag then [] else filter (λ h. contains spec.tag (tags_of h)) hosts

unfoldable pub select_hosts : List Host → SelectionSpec → List Host
select_hosts hosts spec = by_mode spec.mode hosts spec

unfoldable pub add_all : List Text → List Text → List Text
add_all s [] = s
add_all s (t ∷ ts) = add_all (add t s) ts

unfoldable pub tags_from : List Text → List Host → List Text
unfolding add_all
tags_from s [] = s
tags_from s (h ∷ hs) = tags_from (add_all s (tags_of h)) hs

unfoldable pub collect_tags : List Host → List Text
unfolding tags_from
collect_tags hosts = sort (tags_from [] hosts)

-- `if (h.groupId) s.add(h.groupId)`
unfoldable pub add_group : List Text → Option Text → List Text
add_group s none = s
add_group s (some g) = if is_empty g then s else add g s

unfoldable pub groups_from : List Text → List Host → List Text
unfolding add_group
groups_from s [] = s
groups_from s (h ∷ hs) = groups_from (add_group s h.group_id) hs

unfoldable pub collect_group_ids : List Host → List Text
unfolding groups_from
collect_group_ids hosts = sort (groups_from [] hosts)

unfoldable pub dedupe_from : List Text → List Text → List Text → List Text
dedupe_from seen out [] = out
dedupe_from seen out (id ∷ ids) =
    let fresh = dedupe_from (add id seen) (out ++ id ∷ []) ids in
    let again = dedupe_from seen out ids in if contains id seen then again else fresh

unfoldable pub dedupe_ids : List Text → List Text
unfolding dedupe_from
dedupe_ids ids = dedupe_from [] [] ids
