-- ===== src/Reviews/Examples.antt =====
-- A tick of the review detector over a pending row, and over a retriggered one.
use rabbit_maximizer.Prelude.{refl, none, some, [], ◌∷◌, Memᴰ, arith}
use rabbit_maximizer.Domain.{retriggered}
use rabbit_maximizer.Schema.{ReviewQueue, QueueOrder, unique_ok}
use rabbit_maximizer.Samples.{at_time, clock, comment}
use rabbit_maximizer.Queue.Traces.{empty_db}
use rabbit_maximizer.Queue.Enqueue.{new_row}
use rabbit_maximizer.Queue.WellFormed.{WellFormed}
use rabbit_maximizer.Service.{World}
use rabbit_maximizer.Reviews.Detector.{review_tick}
use rabbit_maximizer.Reviews.Retriggered.{review_tick-Memᴰ}
use rabbit_maximizer.Reviews.Tables.{review_tick-WellFormed}

abbrev waiting_row : ReviewQueue
waiting_row = new_row clock 3600 comment 1

abbrev waiting_world : World
waiting_world = record {
  db = record empty_db { review_queue = waiting_row ∷ []; next_id = 2 };
  posts = [];
  fetched = [];
}

review_tick-Memᴰ_example :
    Memᴰ waiting_row (review_tick (at_time 200000000) waiting_world).1.db.review_queue
review_tick-Memᴰ_example =
    review_tick-Memᴰ (at_time 200000000) waiting_row refl waiting_world (Memᴰ.head refl)

-- The row once its review was asked for.
abbrev sent_row : ReviewQueue
sent_row = record waiting_row { status = retriggered; retriggered_at = some 150000000 }

abbrev sent_order : QueueOrder
sent_order = record { id = 1; queue_item_id = 1; position = none; created_at = 1; updated_at = 1 }

abbrev sent_world : World
sent_world = record {
  db = record empty_db { review_queue = sent_row ∷ []; queue_order = sent_order ∷ []; next_id = 2 };
  posts = [];
  fetched = [];
}

sent-WellFormed : WellFormed sent_world.db
unfolding unique_ok
sent-WellFormed = record {
  table = refl;
  active = λ repo pr. ground arith;
  stamped = (λ h. absurd (cc), tt);
  ordered = (refl, tt);
  fresh = (omega arith, tt);
  single = λ i. ground arith;
}

review_tick-WellFormed_example : WellFormed (review_tick (at_time 200000000) sent_world).1.db
review_tick-WellFormed_example =
    review_tick-WellFormed (at_time 200000000) sent_world sent-WellFormed
