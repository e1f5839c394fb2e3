-- ===== src/Queue/Enqueue/Examples.antt =====
-- Runs of the queue on small tables: a clock, a `findFirst` that takes the first row, two comments.
use rabbit_maximizer.Prelude.{◌≡◌, refl, true, none, some, [], ◌∷◌, Memᴰ}
use rabbit_maximizer.Domain.{pos, review_completed, manual_review}
use rabbit_maximizer.Schema.{ReviewQueue, Db, unique_ok}
use rabbit_maximizer.Store.{
  ok, err, commit, create, create_order, record_event, with_prisma_error_handling, order_row,
  unique_constraint_violation,
}
use rabbit_maximizer.Samples.{clock, comment}
use rabbit_maximizer.Queue.Rules.{Holds}
use rabbit_maximizer.Queue.WellFormed.{WellFormed}
use rabbit_maximizer.Queue.Marks.{resolve_row}
use rabbit_maximizer.Queue.Traces.{
  Reachable, start, after, enqueue_step, empty_db, Reachable-WellFormed,
}
use rabbit_maximizer.Queue.Requests.{EnqueueData, newly_pending}
use rabbit_maximizer.Queue.Reads.{get_oldest_pending}
use rabbit_maximizer.Queue.Enqueue.{
  new_row, enqueue, adopt_or_create, guarded, cooldown_guard, recent_resolved_guard,
  create_queue_row, enqueued,
}
use rabbit_maximizer.Queue.Enqueue.Decision.{Decision}
use rabbit_maximizer.Queue.Enqueue.Guards.{enqueue-keeps_resolved, enqueue-keeps_others}
use rabbit_maximizer.Queue.Enqueue.Conflicts.{enqueue-conflict}

-- The row of the comment, and the tables after it is enqueued.
abbrev pub queued : ReviewQueue
queued = new_row clock 3600 comment 1

abbrev pub with_row : ReviewQueue → Db
with_row r = record {
  review_queue = r ∷ [];
  queue_order = order_row 100000000 1 none 1 ∷ [];
  pull_request = [];
  system_state = [];
  events = record { event_type = "enqueued"; repo_full_name = "o/r"; pr_number = 7 } ∷ [];
  coderabbit_comment = [];
  next_id = 2;
  next_order_id = 2;
  next_comment_id = 1;
  pull_request_sha = [];
  next_pr_id = 1;
  next_sha_id = 1;
}

enqueue_first : enqueue clock 3600 comment empty_db ≡ ok (newly_pending queued, with_row queued)
unfolding enqueue adopt_or_create guarded cooldown_guard recent_resolved_guard create_queue_row
    create commit create_order enqueued record_event with_prisma_error_handling unique_ok
enqueue_first = refl

queued-Reachable : Reachable (with_row queued)
queued-Reachable =
    after start (enqueue_step clock 3600 comment (newly_pending queued) tt enqueue_first)

Reachable-WellFormed_example : WellFormed (with_row queued)
Reachable-WellFormed_example = Reachable-WellFormed queued-Reachable

-- The row resolved by its review just now, and the one that a person marked as reviewed long ago.
abbrev reviewed : ReviewQueue
reviewed = resolve_row 99990000 review_completed queued

abbrev marked : ReviewQueue
marked = resolve_row 10000000 manual_review queued

abbrev other_pr : EnqueueData
other_pr = record comment { pr = 8; source_comment_id = pos 12 }

one_row_unique : unique_ok (reviewed ∷ []) ≡ true
unfolding unique_ok
one_row_unique = refl

queued_unique : unique_ok (queued ∷ []) ≡ true
unfolding unique_ok
queued_unique = refl

enqueue-keeps_resolved_example :
    Holds (λ _ db'. Memᴰ reviewed db'.review_queue) (enqueue clock 3600 comment (with_row reviewed))
enqueue-keeps_resolved_example =
    enqueue-keeps_resolved clock 3600 comment (with_row reviewed) reviewed one_row_unique
      (Memᴰ.head refl) refl refl

enqueue-keeps_others_example :
    Holds (λ _ db'. Memᴰ queued db'.review_queue) (enqueue clock 3600 other_pr (with_row queued))
enqueue-keeps_others_example =
    enqueue-keeps_others clock 3600 other_pr (with_row queued) queued queued_unique
      (λ e. absurd (cc), tt) (Memᴰ.head refl) refl

enqueue-conflict_example :
    enqueue clock 3600 comment (with_row marked) ≡ err unique_constraint_violation
unfolding cooldown_guard recent_resolved_guard
enqueue-conflict_example =
    enqueue-conflict clock 3600 comment (with_row marked) marked refl refl refl refl refl
      (Memᴰ.head refl) refl

queued_is_oldest : get_oldest_pending (with_row queued) ≡ some queued
unfolding get_oldest_pending
queued_is_oldest = refl
