-- ===== src/RunMath/Progress.antt =====
-- The progress bar.
use bastiondeck.Prelude.{ℕ, ◌+◌, ◌^◌, ◌≤◌, ◌<◌, ◌≡◌, arith}
use bastiondeck.Api.Activity.{RunSummary}
use bastiondeck.RunMath.Measures.{Double, finished, progress_pct}
use bastiondeck.RunMath.Summary.{IsBalanced}

part_of_whole :
    (d : Double) (a c : ℕ) → a ≤ c → 0 < c → c ≤ 2 ^ 53 → d.round (d.times (d.div a c) 100) ≤ 100
part_of_whole d a c le h small = omega (arith, d.mono a c c le small h small, d.full c h small)

-- A balanced summary of at most 2 ^ 53 targets shows at most 100 per cent.
progress_pct_bound :
    (d : Double) (s : RunSummary) → IsBalanced s → s.total ≤ 2 ^ 53 → progress_pct d s ≤ 100
unfolding progress_pct
progress_pct_bound d s b small = ground (arith, part_of_whole d (finished s) s.total)

-- A balanced summary with targets, at most 2 ^ 53 and none of them pending or running, shows 100 per
-- cent.
progress_pct-eq-100 :
    (d : Double) (s : RunSummary)
    → IsBalanced s
    → s.pending + s.running ≡ 0
    → 0 < s.total
    → s.total ≤ 2 ^ 53
    → progress_pct d s ≡ 100
unfolding progress_pct
progress_pct-eq-100 d s b idle some small =
    let all_done : finished s ≡ s.total = omega arith in
    rw all_done (ground (arith, d.full s.total))

-- Of two summaries with the same total, at most 2 ^ 53, of which the second is balanced and has no
-- fewer finished targets, the second shows no less.
progress_pct_mono :
    (d : Double) (s t : RunSummary)
    → IsBalanced t
    → s.total ≡ t.total
    → t.total ≤ 2 ^ 53
    → finished s ≤ finished t
    → progress_pct d s ≤ progress_pct d t
unfolding progress_pct
progress_pct_mono d s t b same small more =
    rw same (ground (arith, d.mono (finished s) (finished t) t.total))
