-- ===== src/Feed.antt =====
-- web/src/components/EventFeed.tsx: the live feed keeps the newest 200 events.
pub mod Bounds
use bastiondeck.Prelude.{
  ℕ, suc, ◌+◌, Bool, true, false, not, Option, none, some, List, [], ◌∷◌, Text, take, ◌≡◌,
  if◌then◌else◌,
}
use bastiondeck.Prelude.Json.{Json}

pub record FeedItem : Type 0 where
  pub key : ℕ
  pub at : Text
  pub type : Text
  pub run_id : Option Text
  pub target_id : Option Text
  pub status : Option Text
  pub message : Option Text

-- `feedSeq`, `items` and `paused`
pub record Feed : Type 0 where
  pub seq : ℕ
  pub items : List FeedItem
  pub paused : Bool

abbrev empty_feed : ℕ → Feed
empty_feed seq = record { seq = seq; items = []; paused = false }

-- The fields that the handler reads of an event's data.
pub record EventData : Type 0 where
  pub run_id : Option Text
  pub target_id : Option Text
  pub status : Option Text
  pub message : Option Text

pub data FeedEvent : Type 0 where
  event : Text → Text → EventData → FeedEvent
  toggle_pause : FeedEvent
  clear : FeedEvent
  refresh : FeedEvent

abbrev pub newest : ℕ
newest = 200

-- `at` is the time when the event comes. `refresh` is the minute's `xs.slice()`.
unfoldable pub feed_step : FeedEvent → Feed → Feed
feed_step (event at type d) s = if s.paused then s else record s {
  seq = s.seq + 1;
  items = take newest (
      record {
        key = s.seq + 1;
        at = at;
        type = type;
        run_id = d.run_id;
        target_id = d.target_id;
        status = d.status;
        message = d.message;
      }
      ∷ s.items);
}
feed_step toggle_pause s = record s { paused = not s.paused }
feed_step clear s = record s { items = [] }
feed_step refresh s = s

unfoldable pub feed_run : List FeedEvent → Feed → Feed
unfolding feed_step
feed_run [] s = s
feed_run (e ∷ es) s = feed_run es (feed_step e s)
