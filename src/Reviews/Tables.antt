-- ===== src/Reviews/Tables.antt =====
-- A tick of the review detector keeps the tables of the queue well formed.
use rabbit_maximizer.Schema.{Db}
use rabbit_maximizer.Queue.WellFormed.{WellFormed}
use rabbit_maximizer.Queue.Keeps.{
  mark_resolved_if_still_retriggered-WellFormed, adopt_run_if_still_retriggered-WellFormed,
}
use rabbit_maximizer.Queue.Reopen.{reopen_stale_retriggered-WellFormed}
use rabbit_maximizer.Service.{Setting, World}
use rabbit_maximizer.Reviews.Detector.{review_tick}
use rabbit_maximizer.Reviews.Kept.{IsKept, IsSame}
use rabbit_maximizer.Reviews.Tick.{review_tick-KeepsT}

pub IsSame-WellFormed : (db db' : Db) → IsSame db db' → WellFormed db → WellFormed db'
IsSame-WellFormed db db' (rows, orders, next, _) v = record {
  table = rw rows v.table;
  active = λ repo pr. rw rows (v.active repo pr);
  stamped = rw rows v.stamped;
  ordered = rw (rows, orders) v.ordered;
  fresh = rw (rows, next) v.fresh;
  single = λ i. rw orders (v.single i);
}

module _ (s : Setting) where
  WellFormed-IsKept : IsKept s WellFormed
  WellFormed-IsKept = record {
    elsewhere = IsSame-WellFormed;
    mark_resolved = mark_resolved_if_still_retriggered-WellFormed s.env;
    adopt_run = adopt_run_if_still_retriggered-WellFormed s.env;
    reopen = reopen_stale_retriggered-WellFormed s.env;
  }

  -- Where the tables of the queue are well formed before a tick of the review detector, they
  -- are after it, whatever GitHub answers and wherever the tick fails.
  pub review_tick-WellFormed : (w : World) → WellFormed w.db → WellFormed (review_tick s w).1.db
  review_tick-WellFormed w v = review_tick-KeepsT s WellFormed WellFormed-IsKept w v
