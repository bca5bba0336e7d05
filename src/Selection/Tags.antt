-- ===== src/Selection/Tags.antt =====
-- The tags and groups that the wizard offers, and the ids that a run is sent.
use bastiondeck.Prelude.{
  Bool, true, false, ◌&&◌, ◌||◌, not, Option, none, some, List, [], ◌∷◌, ◌++◌, Text, ◌==◌, contains,
  add, any, filter, is_empty, contains-add, contains-append, add-HasNoRepeat, HasNoRepeat, ==_sym,
  ◌≡◌, ◌≢◌, refl, sym, ap, ◌∙◌, arith,
}
use mathlib.Core.List.{append-nil, append_assoc}
use bastiondeck.Prelude.Sort.{contains-sort, sort-HasNoRepeat, sort-IsSorted, IsSorted}
use bastiondeck.Api.Inventory.{Host}
use bastiondeck.Selection.{
  tag, SelectionSpec, tags_of, add_all, tags_from, collect_tags, add_group, groups_from,
  collect_group_ids, dedupe_from, dedupe_ids, select_hosts,
}
use bastiondeck.Selection.Targets.{wants, select_hosts-eq-filter}

contains-add_all :
    (a : Text) (s ts : List Text) → contains a (add_all s ts) ≡ (contains a s || contains a ts)
unfolding add_all contains
contains-add_all a s [] = ground arith
contains-add_all a s (t ∷ ts) = ground (arith, contains-add_all a (add t s) ts, contains-add a t s)

add_all-HasNoRepeat : (s ts : List Text) → HasNoRepeat s → HasNoRepeat (add_all s ts)
unfolding add_all
add_all-HasNoRepeat s [] h = h
add_all-HasNoRepeat s (t ∷ ts) h = add_all-HasNoRepeat (add t s) ts (add-HasNoRepeat t s h)

contains-tags_from :
    (a : Text) (s : List Text) (hs : List Host)
    → contains a (tags_from s hs) ≡ (contains a s || any (λ h. contains a (tags_of h)) hs)
unfolding tags_from
contains-tags_from a s [] = ground arith
contains-tags_from a s (h ∷ hs) =
    ground
      (arith, contains-tags_from a (add_all s (tags_of h)) hs, contains-add_all a s (tags_of h))

tags_from-HasNoRepeat :
    (s : List Text) (hs : List Host) → HasNoRepeat s → HasNoRepeat (tags_from s hs)
unfolding tags_from
tags_from-HasNoRepeat s [] h = h
tags_from-HasNoRepeat s (x ∷ hs) h =
    tags_from-HasNoRepeat (add_all s (tags_of x)) hs (add_all-HasNoRepeat s (tags_of x) h)

-- The tags offered are sorted, distinct, and exactly those that some host carries.
collect_tags_lem :
    (hosts : List Host) (a : Text)
    → IsSorted (collect_tags hosts)
      × HasNoRepeat (collect_tags hosts)
      × (contains a (collect_tags hosts) ≡ any (λ h. contains a (tags_of h)) hosts)
unfolding collect_tags
collect_tags_lem hosts a = (
  sort-IsSorted (tags_from [] hosts),
  sort-HasNoRepeat (tags_from [] hosts) (tags_from-HasNoRepeat [] hosts tt),
  contains-sort a (tags_from [] hosts) ∙ (contains-tags_from a [] hosts ∙ unfold contains in refl),
)

filter-ne-nil : (p : Host → Bool) (hosts : List Host) → any p hosts ≡ true → filter p hosts ≢ []
filter-ne-nil p [] h e = ground arith
filter-ne-nil p (x ∷ xs) h e = ground (arith, filter-ne-nil p xs)

any-guard :
    (b : Bool) (p : Host → Bool) (hosts : List Host)
    → b ≡ true
    → any p hosts ≡ true
    → any (λ h. b && p h) hosts ≡ true
any-guard true p hosts _ h = h
any-guard false p hosts e h = absurd (cc)

not-is_empty : (s : Text) → s ≢ [] → not (is_empty s) ≡ true
not-is_empty [] h = absurd (h refl)
not-is_empty (c ∷ s) h = refl

-- Choosing a tag that is offered never selects nothing.
select_hosts_of_tag :
    (hosts : List Host) (spec : SelectionSpec)
    → spec.mode ≡ tag
    → contains spec.tag (collect_tags hosts) ≡ true
    → spec.tag ≢ []
    → select_hosts hosts spec ≢ []
select_hosts_of_tag hosts spec m h k e =
    let carried = sym (collect_tags_lem hosts spec.tag).2 ∙ h in
    let same = select_hosts-eq-filter hosts spec ∙ ap (λ mode. filter (wants mode spec) hosts) m in
    filter-ne-nil (wants tag spec) hosts (any-guard _ _ hosts (not-is_empty spec.tag k) carried)
      (sym same ∙ e)

contains-add_group :
    (a : Text) (s : List Text) (g : Option Text)
    → contains a (add_group s g)
      ≡ (contains a s || elim g [ none ↦ false | some b ↦ not (is_empty b) && a == b ])
unfolding add_group
contains-add_group a s none = ground arith
contains-add_group a s (some b) = ground (arith, contains-add a b s)

dedupe_from-eq-add_all : (s ids : List Text) → dedupe_from s s ids ≡ add_all s ids
unfolding dedupe_from add_all add
dedupe_from-eq-add_all s [] = refl
dedupe_from-eq-add_all s (id ∷ ids) =
    ground (arith, dedupe_from-eq-add_all s ids, dedupe_from-eq-add_all (s ++ id ∷ []) ids)

-- The ids that a run is sent are distinct, and are the ids that were given.
pub dedupe_ids_lem :
    (ids : List Text) (a : Text)
    → HasNoRepeat (dedupe_ids ids) × (contains a (dedupe_ids ids) ≡ contains a ids)
unfolding dedupe_ids
dedupe_ids_lem ids a =
    rw dedupe_from-eq-add_all
      (add_all-HasNoRepeat [] ids tt, contains-add_all a [] ids ∙ unfold contains in refl)

fresh_of_HasNoRepeat :
    (s : List Text) (a : Text) (t : List Text) → HasNoRepeat (s ++ a ∷ t) → contains a s ≡ false
unfolding contains
fresh_of_HasNoRepeat [] a t h = refl
fresh_of_HasNoRepeat (x ∷ s) a t (h, k) =
    ground (arith, fresh_of_HasNoRepeat s a t k, contains-append x s (a ∷ t), ==_sym a x)

add_all-fresh : (s ids : List Text) → HasNoRepeat (s ++ ids) → add_all s ids ≡ s ++ ids
unfolding add_all add
add_all-fresh s [] h = sym (append-nil s)
add_all-fresh s (id ∷ ids) h =
    rw (fresh_of_HasNoRepeat s id ids h)
      (add_all-fresh (s ++ id ∷ []) ids (rw append_assoc h) ∙ append_assoc s (id ∷ []) ids)

-- Ids that are distinct already are left as they are.
pub dedupe_ids_of_HasNoRepeat : (ids : List Text) → HasNoRepeat ids → dedupe_ids ids ≡ ids
unfolding dedupe_ids
dedupe_ids_of_HasNoRepeat ids h = dedupe_from-eq-add_all [] ids ∙ add_all-fresh [] ids h

abbrev names_group : Text → Host → Bool
names_group a h = elim h.group_id [ none ↦ false | some b ↦ not (is_empty b) && a == b ]

contains-groups_from :
    (a : Text) (s : List Text) (hs : List Host)
    → contains a (groups_from s hs) ≡ (contains a s || any (names_group a) hs)
unfolding groups_from
contains-groups_from a s [] = ground arith
contains-groups_from a s (h ∷ hs) =
    ground
      (arith, contains-groups_from a (add_group s h.group_id) hs, contains-add_group a s h.group_id)

add_group-HasNoRepeat :
    (s : List Text) (g : Option Text) → HasNoRepeat s → HasNoRepeat (add_group s g)
unfolding add_group
add_group-HasNoRepeat s none h = h
add_group-HasNoRepeat s (some []) h = h
add_group-HasNoRepeat s (some (c ∷ b)) h = add-HasNoRepeat (c ∷ b) s h

groups_from-HasNoRepeat :
    (s : List Text) (hs : List Host) → HasNoRepeat s → HasNoRepeat (groups_from s hs)
unfolding groups_from
groups_from-HasNoRepeat s [] h = h
groups_from-HasNoRepeat s (x ∷ hs) h =
    groups_from-HasNoRepeat (add_group s x.group_id) hs (add_group-HasNoRepeat s x.group_id h)

-- The group ids are sorted, distinct, and exactly those, not empty, that some host names.
collect_group_ids_lem :
    (hosts : List Host) (a : Text)
    → IsSorted (collect_group_ids hosts)
      × HasNoRepeat (collect_group_ids hosts)
      × (contains a (collect_group_ids hosts) ≡ any (names_group a) hosts)
unfolding collect_group_ids
collect_group_ids_lem hosts a = (
  sort-IsSorted (groups_from [] hosts),
  sort-HasNoRepeat (groups_from [] hosts) (groups_from-HasNoRepeat [] hosts tt),
  contains-sort a (groups_from [] hosts)
      ∙ (contains-groups_from a [] hosts ∙ unfold contains in refl),
)
