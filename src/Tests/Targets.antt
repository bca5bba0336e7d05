-- ===== src/Tests/Targets.antt =====
-- The selection of hosts.
use bastiondeck.Prelude.{[], ◌∷◌, js, ◌==◌, add, contains, ◌≡◌, refl}
use bastiondeck.Selection.{group, tag, SelectionSpec, select_hosts, dedupe_ids}
use bastiondeck.Selection.Targets.{Selects, select_hosts-Selects}
use bastiondeck.Tests.Fixtures.{fleet}

abbrev by_group : SelectionSpec
by_group = record { mode = group; picked = []; group_id = js "g1"; tag = [] }

select_hosts-Selects_example : Selects by_group fleet (select_hosts fleet by_group)
select_hosts-Selects_example = select_hosts-Selects fleet by_group

select_hosts_of_no_tag :
    select_hosts fleet (record by_group { mode = tag; tag = js "nowhere" }) ≡ []
unfolding select_hosts contains ◌==◌
select_hosts_of_no_tag = refl

dedupe_ids_three : dedupe_ids (js "b" ∷ js "a" ∷ js "b" ∷ []) ≡ js "b" ∷ js "a" ∷ []
unfolding dedupe_ids contains add ◌==◌
dedupe_ids_three = refl
