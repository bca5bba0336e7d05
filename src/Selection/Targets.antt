-- ===== src/Selection/Targets.antt =====
-- The selected hosts are exactly the ones that the mode names, in the order of the inventory.
use mathlib.Core.Bool.{false≢true}
use bastiondeck.Prelude.{
  ◌⊎◌, sym, ◌∙◌, ◌↔◌, ◌≢◌, Text, Option, none, some, arith, Bool-cases, inl, inr, ==_iff, ◌==◌,
  Bool, true, false, ◌&&◌, not, List, [], ◌∷◌, contains, filter, is_empty, IsSublist,
  filter-IsSublist, ◌≡◌, refl, ap, if◌then◌else◌,
}
use bastiondeck.Api.Inventory.{Host}
use bastiondeck.Selection.{
  SelectionMode, all, pick, group, tag, SelectionSpec, tags_of, is_in_group, by_mode, select_hosts,
}

-- What the mode asks of a host. No group and no tag chosen asks for nothing.
abbrev pub wants : SelectionMode → SelectionSpec → Host → Bool
wants all spec h = true
wants pick spec h = contains h.id spec.picked
wants group spec h = not (is_empty spec.group_id) && is_in_group spec.group_id h.group_id
wants tag spec h = not (is_empty spec.tag) && contains spec.tag (tags_of h)

filter-true : (hosts : List Host) → hosts ≡ filter (λ h. true) hosts
filter-true [] = refl
filter-true (h ∷ hs) = ap (λ r. h ∷ r) (filter-true hs)

filter-false : (hosts : List Host) → [] ≡ filter (λ h. false) hosts
filter-false [] = refl
filter-false (h ∷ hs) = filter-false hs

guarded_filter :
    (b : Bool) (p : Host → Bool) (hosts : List Host)
    → (if b then [] else filter p hosts) ≡ filter (λ h. not b && p h) hosts
guarded_filter true p hosts = filter-false hosts
guarded_filter false p hosts = refl

pub select_hosts-eq-filter :
    (hosts : List Host) (spec : SelectionSpec)
    → select_hosts hosts spec ≡ filter (wants spec.mode spec) hosts
unfolding select_hosts
select_hosts-eq-filter hosts spec = go spec.mode
  where
    go : (m : SelectionMode) → by_mode m hosts spec ≡ filter (wants m spec) hosts
    go all = filter-true hosts
    go pick = refl
    go group = guarded_filter (is_empty spec.group_id) _ hosts
    go tag = guarded_filter (is_empty spec.tag) _ hosts

abbrev pub IsAmong : Text → List Text → Type 0
IsAmong a [] = ⊥
IsAmong a (b ∷ as_) = (a ≡ b) ⊎ IsAmong a as_

contains_iff : (a : Text) (as_ : List Text) → (contains a as_ ≡ true) ↔ IsAmong a as_
unfolding contains
contains_iff a [] = (λ h. ground arith, λ h. absurd h)
contains_iff a (b ∷ as_) = elim (Bool-cases (a == b)) [
  | inl e ↦ rw e (λ h. inl ((==_iff a b).0 e), λ h. refl)
  | inr e ↦ rw e (
    λ h. inr ((contains_iff a as_).0 h),
    λ h. elim h [
      | inl same ↦ absurd (ground (arith, ==_iff a b))
      | inr k ↦ (contains_iff a as_).1 k
    ],
  )
]

abbrev pub HasTag : Text → Option (List Text) → Type 0
HasTag t none = ⊥
HasTag t (some ts) = IsAmong t ts

-- What a mode asks of a host: to be picked, to have a group that is the one chosen, to have tags with
-- the one chosen among them. A group or a tag is chosen if it is not empty.
abbrev pub IsWanted : SelectionMode → SelectionSpec → Host → Type 0
IsWanted all spec h = Unit
IsWanted pick spec h = IsAmong h.id spec.picked
IsWanted group spec h = (spec.group_id ≢ []) × (h.group_id ≡ some spec.group_id)
IsWanted tag spec h = (spec.tag ≢ []) × HasTag spec.tag h.tags

in_group_iff :
    (id : Text) (o : Option Text)
    → ((not (is_empty id) && is_in_group id o) ≡ true) ↔ ((id ≢ []) × (o ≡ some id))
in_group_iff [] o = (λ h. ground arith, λ h. absurd (h.0 refl))
in_group_iff (c ∷ id) none = (λ h. ground arith, λ h. absurd cc)
in_group_iff (c ∷ id) (some g) =
    (λ h. (λ e. cc, ap some ((==_iff g (c ∷ id)).0 h)), λ (_, e). (==_iff g (c ∷ id)).1 (cc))

contains-HasTag :
    (t : Text) (o : Option (List Text))
    → (contains t (elim o [ none ↦ [] | some ts ↦ ts ]) ≡ true) ↔ HasTag t o
unfolding contains
contains-HasTag t none = (λ h. ground arith, λ h. absurd h)
contains-HasTag t (some ts) = contains_iff t ts

tagged_iff :
    (t : Text) (h : Host)
    → ((not (is_empty t) && contains t (tags_of h)) ≡ true) ↔ ((t ≢ []) × HasTag t h.tags)
tagged_iff [] h = (λ k. ground arith, λ k. absurd (k.0 refl))
tagged_iff (c ∷ t) h = (
  λ k. (λ e. cc, (contains-HasTag (c ∷ t) h.tags).0 k),
  λ (_, k). (contains-HasTag (c ∷ t) h.tags).1 k,
)

wants_iff :
    (m : SelectionMode) (spec : SelectionSpec) (h : Host)
    → (wants m spec h ≡ true) ↔ IsWanted m spec h
wants_iff all spec h = (λ e. tt, λ e. refl)
wants_iff pick spec h = contains_iff h.id spec.picked
wants_iff group spec h = in_group_iff spec.group_id h.group_id
wants_iff tag spec h = tagged_iff spec.tag h

-- A selection leaves out of the inventory, whose order it keeps, the hosts that the mode does not want.
pub data Selects (spec : SelectionSpec) : List Host → List Host → Type 0 where
  none_left : Selects spec [] []
  taken :
      {h : Host} {hs ss : List Host}
      → IsWanted spec.mode spec h
      → Selects spec hs ss
      → Selects spec (h ∷ hs) (h ∷ ss)
  left_out :
      {h : Host} {hs ss : List Host}
      → ¬ IsWanted spec.mode spec h
      → Selects spec hs ss
      → Selects spec (h ∷ hs) ss

filter-Selects :
    (spec : SelectionSpec) (hosts : List Host)
    → Selects spec hosts (filter (wants spec.mode spec) hosts)
filter-Selects spec [] = none_left
filter-Selects spec (h ∷ hs) = elim (Bool-cases (wants spec.mode spec h)) [
  | inl e ↦ rw e (taken ((wants_iff spec.mode spec h).0 e) (filter-Selects spec hs))
  | inr e ↦ rw e (
      left_out (λ w. false≢true (sym e ∙ (wants_iff spec.mode spec h).1 w))
        (filter-Selects spec hs))
]

-- Of every inventory, a selection takes each host that its mode wants and no other, in the order of the
-- inventory and each as often as it is there: in the mode of picks the hosts whose id is picked, in
-- that of groups those that have the group chosen, in that of tags those with the tag chosen among
-- theirs, and of the last two none while nothing is chosen.
pub select_hosts-Selects :
    (hosts : List Host) (spec : SelectionSpec) → Selects spec hosts (select_hosts hosts spec)
select_hosts-Selects hosts spec = rw select_hosts-eq-filter (filter-Selects spec hosts)

-- Whatever the mode, only hosts of the inventory are selected, and in its order.
select_hosts-IsSublist :
    (hosts : List Host) (spec : SelectionSpec) → IsSublist (select_hosts hosts spec) hosts
select_hosts-IsSublist hosts spec =
    rw select_hosts-eq-filter (filter-IsSublist (wants spec.mode spec) hosts)
