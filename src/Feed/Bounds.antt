-- ===== src/Feed/Bounds.antt =====
-- The feed is bounded, newest first, and stands still while paused.
use bastiondeck.Prelude.{
  ℕ, zero, suc, ◌+◌, ◌-◌, ◌≤◌, ◌<◌, List, [], ◌∷◌, take, length, length-take, if_both, ◌≡◌, arith,
}
use bastiondeck.Feed.{
  FeedItem, Feed, FeedEvent, event, toggle_pause, clear, refresh, newest, feed_step, feed_run,
}

-- The keys fall from the newest item on, and none is above the bound.
abbrev pub IsNewestFirst : ℕ → List FeedItem → Type 0
IsNewestFirst n [] = Unit
IsNewestFirst n (x ∷ xs) = (0 < x.key) × (x.key ≤ n) × IsNewestFirst (x.key - 1) xs

take-IsNewestFirst :
    (k n : ℕ) (xs : List FeedItem) → IsNewestFirst n xs → IsNewestFirst n (take k xs)
take-IsNewestFirst zero n xs h = tt
take-IsNewestFirst (suc k) n [] h = tt
take-IsNewestFirst (suc k) n (x ∷ xs) (p, q, h) = (p, q, take-IsNewestFirst k (x.key - 1) xs h)

abbrev pub IsOrdered : Feed → Type 0
IsOrdered s = IsNewestFirst s.seq s.items × (length s.items ≤ newest)

feed_step-IsOrdered : (e : FeedEvent) (s : Feed) → IsOrdered s → IsOrdered (feed_step e s)
unfolding feed_step
feed_step-IsOrdered (event at type d) s h = if_both IsOrdered s.paused s _ h (
  (omega arith, omega arith, (rw before (take-IsNewestFirst 199 s.seq s.items h.0))),
  omega (arith, length-take 199 s.items),
)
  where
    before : s.seq + 1 - 1 ≡ s.seq
    before = omega arith
feed_step-IsOrdered toggle_pause s h = h
feed_step-IsOrdered clear s h = (tt, omega arith)
feed_step-IsOrdered refresh s h = h

-- From an ordered feed, whatever happens leads to an ordered feed: at most 200 items, with keys that
-- fall strictly from the newest on, none above the counter.
feed_run-IsOrdered : (es : List FeedEvent) (s : Feed) → IsOrdered s → IsOrdered (feed_run es s)
unfolding feed_run
feed_run-IsOrdered [] s h = h
feed_run-IsOrdered (e ∷ es) s h = feed_run-IsOrdered es (feed_step e s) (feed_step-IsOrdered e s h)
