-- ===== src/Views/Served/Detail.antt =====
-- The page of one host.
use bastiondeck.Prelude.{ℕ, true, Option, none, some, List, [], ◌∷◌, Text, js, ◌≡◌}
use bastiondeck.Auth.{Auth, can}
use bastiondeck.Api.Inventory.{Host, Facts}
use bastiondeck.Pages.Hosts.{Tab, term, facts, metrics, exec}
use bastiondeck.Server.Routes
use bastiondeck.Server.Routes.{may, permissions_for, route_of}
use bastiondeck.Views.{key_val}
use bastiondeck.Views.HostDetail.{
  HostDetail, tab_view, host_shown, detail_view, facts_stats, series, last_run,
}
use bastiondeck.Views.Widgets.{bars, sparkline}
use bastiondeck.Views.Served.Parts.{
  IsServed, nil, cons, IsServed-each, IsServed-if, IsServed-error_box, told_may, parts,
}

-- The tabs of a terminal and of the quick command are open only for who has them.
abbrev pub IsOwnTab : Auth → Tab → Type 0
IsOwnTab s term = can s (js "exec") ≡ true
IsOwnTab s exec = can s (js "exec") ≡ true
IsOwnTab s facts = Unit
IsOwnTab s metrics = Unit

module _ {role : Text} where
  bars-IsServed : (top : ℕ) (vs : List ℕ) → IsServed role (bars top vs)
  bars-IsServed top [] = nil
  bars-IsServed top (v ∷ vs) = cons tt (bars-IsServed top vs)

  series-IsServed : (one : ℕ) (vs : List ℕ) → IsServed role (series one vs)
  unfolding sparkline
  series-IsServed one [] = cons tt nil
  series-IsServed one (v ∷ vs) = bars-IsServed _ (v ∷ vs)

  last_run-IsServed : (o : Option Text) → IsServed role (last_run o)
  last_run-IsServed none = nil
  last_run-IsServed (some []) = nil
  last_run-IsServed (some (c ∷ id)) = cons tt nil

  facts_stats-IsServed :
      (to_fixed : ℕ → ℕ → ℕ → Text) (o : Option Facts) → IsServed role (facts_stats to_fixed o)
  facts_stats-IsServed to_fixed none = cons tt nil
  facts_stats-IsServed to_fixed (some f) = search (parts, tt) depth 30

  key_val-IsServed : (rows : List (Text × Option Text)) → IsServed role (key_val rows)
  key_val-IsServed rows = IsServed-each rows (λ r. search (parts, tt) depth 10)

module _ (role : Text) (s : Auth) (reads : may role Routes.read ≡ true)
    (told : s.permissions ≡ permissions_for role) (to_fixed : ℕ → ℕ → ℕ → Text) (one : ℕ)
    (id : Text) (p : HostDetail) where
  tab-IsServed : (t : Tab) → IsOwnTab s t → IsServed role (tab_view to_fixed one id p t)
  unfolding route_of
  tab-IsServed term own = cons tt nil
  tab-IsServed exec own =
      let may_exec = told_may role s Routes.exec told own in
      search (parts, tt, last_run-IsServed p.run_id) depth 10
  tab-IsServed facts own = search (parts, tt, IsServed-if, facts_stats-IsServed) depth 10
  tab-IsServed metrics own = search (parts, tt, series-IsServed one) depth 10

  host_shown-IsServed :
      (o : Option Host) → IsOwnTab s p.tab → IsServed role (host_shown to_fixed one s id p o)
  unfolding route_of
  host_shown-IsServed none own = IsServed-error_box _
  host_shown-IsServed (some h) own =
      let may_manage = told_may role s Routes.manage_inventory told in
      search (parts, tt, key_val-IsServed, may_manage, IsServed-each, tab-IsServed p.tab own) depth
        30

  -- All that the controls of the page of one host ask for is served.
  pub detail_view-IsServed : IsOwnTab s p.tab → IsServed role (detail_view to_fixed one s id p)
  unfolding detail_view
  detail_view-IsServed own =
      search (parts, tt, IsServed-if, host_shown-IsServed p.host.value own) depth 10
