-- ===== src/Pages/Files/Crumbs.antt =====
-- The path shown above the list of files.
use bastiondeck.Prelude.{ℕ, zero, suc, List, [], ◌∷◌, All, take, Text, ◌≡◌}
use bastiondeck.Pages.Files.{split, crumbs}
use bastiondeck.Pages.Files.Paths.{IsSegment, split-AreBare, filter-AreSegments, crumbs-slashed}
use bastiondeck.Pages.Files.Tree.{crumb_path}

take-All : (n : ℕ) (ss : List Text) → All IsSegment ss → All IsSegment (take n ss)
take-All zero ss h = tt
take-All (suc n) [] h = tt
take-All (suc n) (s ∷ ss) (h, hs) = (h, take-All n ss hs)

-- The crumb of an index leads to the path of all segments up to it, whatever slashes the path has.
crumbs-crumb_path : (i : ℕ) (path : Text) → crumbs (crumb_path i path) ≡ take (suc i) (crumbs path)
unfolding crumb_path crumbs
crumbs-crumb_path i path =
    crumbs-slashed (take (suc i) (crumbs path))
      (take-All (suc i) (crumbs path) (filter-AreSegments (split path) (split-AreBare path)))
