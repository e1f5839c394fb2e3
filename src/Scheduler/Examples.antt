-- ===== src/Scheduler/Examples.antt =====
-- Ticks over a table with one pending row.
use rabbit_maximizer.Prelude.{◌+◌, ◌<◌, ◌≤◌, ◌≡◌, refl, none, some, [], ◌∷◌, length, arith}
use rabbit_maximizer.Schema.{ReviewQueue, PullRequest, Db, unique_ok}
use rabbit_maximizer.Store.{
  Result, ok, err, commit, update, updated, with_prisma_error_handling, record_event,
}
use rabbit_maximizer.Queue.Marks.{mark_retriggered}
use rabbit_maximizer.PullRequests.{increment_retrigger_count, update_pr, requested}
use rabbit_maximizer.Samples.{clock, comment, waiting, at_time}
use rabbit_maximizer.Queue.Traces.{empty_db}
use rabbit_maximizer.Queue.Enqueue.{new_row}
use rabbit_maximizer.SystemState.{
  is_scheduler_paused, set_state, upsert_state, get_state, get_next_review_available_at,
  set_next_review_available_at,
}
use rabbit_maximizer.Service.{World, Setting}
use rabbit_maximizer.Scheduler.Tick.{execute_tick}
use rabbit_maximizer.Scheduler.Selection.{eligible_items, select_next_eligible_item}
use rabbit_maximizer.Scheduler.Selection.Candidate.{Gives, IsScan, select_next_eligible_item-IsScan}
use rabbit_maximizer.Scheduler.AtMostOne.{execute_tick-at_most_one}
use rabbit_maximizer.Scheduler.Recording.{record_retrigger}
use rabbit_maximizer.Scheduler.Spacing.{execute_tick-spaced}

abbrev item : ReviewQueue
item = new_row clock 3600 comment 1

abbrev one_item : Db
one_item = record empty_db { review_queue = item ∷ []; next_id = 2 }

abbrev IsRecent : PullRequest → Type 0
IsRecent q =
    200000000 < requested q.last_review_requested_at + (at_time 200000000).cfg.retrigger_spacing_ms

-- A request half a second before, which no one has acknowledged.
abbrev requested_pr : PullRequest
requested_pr = record waiting {
  last_review_requested_at = some 199999500;
  last_coderabbit_acknowledged_at = none;
}

abbrev unanswered : World
unanswered = record { db = record one_item { pull_request = requested_pr ∷ [] }; posts = []; fetched = [] }

execute_tick-at_most_one_example :
    length (execute_tick (at_time 200000000) (record { db = one_item; posts = []; fetched = [] })).1.posts ≤ 1
execute_tick-at_most_one_example =
    execute_tick-at_most_one (at_time 200000000) (record { db = one_item; posts = []; fetched = [] })

select_next_eligible_item-IsScan_example :
    Gives
      (IsScan (at_time 200000000) (eligible_items (at_time 200000000) one_item))
      (select_next_eligible_item (at_time 200000000) (record { db = one_item; posts = []; fetched = [] })).0
    × (length
        (select_next_eligible_item (at_time 200000000)
          (record { db = one_item; posts = []; fetched = [] })).1.fetched
        ≤ (at_time 200000000).cfg.max_pr_state_fetches_per_tick)
select_next_eligible_item-IsScan_example =
    select_next_eligible_item-IsScan (at_time 200000000) (record { db = one_item; posts = []; fetched = [] })
      (omega arith)

abbrev state_after : Db → Result (Unit {0} × Db) → Db
state_after db (err e) = db
state_after db (ok (u, db')) = db'

abbrev with_pr : Db
with_pr = record one_item { pull_request = waiting ∷ [] }

abbrev recorded : Db
recorded =
    state_after with_pr (record_retrigger (at_time 200000000) item "https://c/99" none with_pr)

recorded-ok :
    record_retrigger (at_time 200000000) item "https://c/99" none with_pr ≡ ok (tt, recorded)
unfolding record_retrigger mark_retriggered update updated commit unique_ok
    with_prisma_error_handling increment_retrigger_count update_pr record_event
    set_next_review_available_at get_next_review_available_at set_state upsert_state get_state
recorded-ok = refl

execute_tick-spaced_example :
    (execute_tick (at_time 200030000) (record { db = recorded; posts = []; fetched = [] })).1.posts ≡ []
execute_tick-spaced_example =
    execute_tick-spaced (at_time 200000000) (at_time 200030000) item "https://c/99" none with_pr
      recorded [] [] recorded-ok (omega arith)

-- What a transaction leaves.
abbrev left_by : Db → Result (Unit {0} × Db) → Db
left_by db (err _) = db
left_by db (ok (_, db')) = db'

abbrev later : Setting
later = at_time 200000000
