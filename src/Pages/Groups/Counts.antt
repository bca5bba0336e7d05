-- ===== src/Pages/Groups/Counts.antt =====
-- The number beside a group is that of its hosts.
use bastiondeck.Prelude.{
  ℕ, ◌+◌, Bool, Option, none, some, List, [], ◌∷◌, Text, ◌==◌, ==_iff, length, filter,
  if◌then◌else◌, ◌≡◌, ◌≢◌, sym, arith, Bool-cases, inl, inr,
}
use bastiondeck.Api.Inventory.{Host}
use bastiondeck.Selection.{is_in_group}
use bastiondeck.Pages.Groups.{bump, bump_group, counts_from, counts, count_of}

-- 1 for a member of a group, and else 0.
abbrev one_if : Bool → ℕ
one_if b = if b then 1 else 0

count_of-bump :
    (g k : Text) (m : List (Text × ℕ)) → count_of g (bump k m) ≡ count_of g m + one_if (k == g)
unfolding count_of bump
count_of-bump g k [] = ground arith
count_of-bump g k ((j, n) ∷ m) =
    ground (arith, count_of-bump g k m, ==_iff j k, ==_iff j g, ==_iff k g)

count_of-bump_group :
    (g : Text) (o : Option Text) (m : List (Text × ℕ))
    → g ≢ []
    → count_of g (bump_group o m) ≡ count_of g m + one_if (is_in_group g o)
unfolding bump_group
count_of-bump_group g none m h = omega arith
count_of-bump_group g (some []) m h = elim (Bool-cases ([] == g)) [
  | inl e ↦ absurd (h (sym ((==_iff [] g).0 e)))
  | inr e ↦ rw e (omega arith)
]
count_of-bump_group g (some (c ∷ k)) m h = count_of-bump g (c ∷ k) m

count_of-counts_from :
    (g : Text) (m : List (Text × ℕ)) (hosts : List Host)
    → g ≢ []
    → count_of g (counts_from m hosts)
      ≡ count_of g m + length (filter (λ h. is_in_group g h.group_id) hosts)
unfolding counts_from
count_of-counts_from g m [] h = omega arith
count_of-counts_from g m (x ∷ xs) h = ground (
  arith,
  count_of-counts_from g (bump_group x.group_id m) xs h,
  count_of-bump_group g x.group_id m h,
)

-- The number shown beside a group, whose id is not empty, is the number of hosts that name it.
count_of-counts :
    (g : Text) (hosts : List Host)
    → g ≢ []
    → count_of g (counts hosts) ≡ length (filter (λ h. is_in_group g h.group_id) hosts)
unfolding counts count_of
count_of-counts g hosts h = omega (arith, count_of-counts_from g [] hosts h)
