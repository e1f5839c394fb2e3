-- ===== src/Scheduler/Recording.antt =====
-- The transactions that ReviewTrigger.ts, scheduler.ts and Pruner.ts run, each with its event.
use rabbit_maximizer.Prelude.{ℕ, ◌+◌, String, Option, none, some, leb, if◌then◌else◌}
use rabbit_maximizer.Domain.{Resolution, failed}
use rabbit_maximizer.Schema.{ReviewQueue, Event}
use rabbit_maximizer.Store.{M, ◌>>=◌, return, record_event}
use rabbit_maximizer.Queue.Marks.{
  CommentDetails, mark_retriggered, mark_resolved, reschedule, backoff, increment_attempts,
}
use rabbit_maximizer.PullRequests.{increment_retrigger_count}
use rabbit_maximizer.SystemState.{
  get_next_review_available_at, set_next_review_available_at, later_of,
}
use rabbit_maximizer.Service.{Setting}

-- The column is not null in an item of the effective order, whose reader filters the rows.
abbrev pub pull_request_id_of : ReviewQueue → ℕ
pull_request_id_of item = elim item.pull_request_id [ none ↦ 0 | some id ↦ id ]

abbrev pub event_of : String → ReviewQueue → Event
event_of type item = record {
  event_type = type;
  repo_full_name = item.repo_full_name;
  pr_number = item.pr_number;
}

module _ (s : Setting) where
  open s use {env, cfg, run_id}

  -- The transaction of `postAndRecord`.
  unfoldable pub record_retrigger : ReviewQueue → String → Option String → M (Unit {0})
  unfolding record_event
  record_retrigger item url source_run_id =
      let cooldown_until = env.now + cfg.post_cooldown_ms in
      mark_retriggered env item.id cooldown_until url source_run_id (some run_id) >>= λ _.
      increment_retrigger_count env.now (pull_request_id_of item) >>= λ _.
      record_event (event_of "retriggered" item) >>= λ _ db.
      set_next_review_available_at env.now
        (later_of (get_next_review_available_at db) cooldown_until) db

  -- `markResolved` with the event of the dismissal, or of the failure.
  unfoldable pub resolve_with_event : ReviewQueue → Resolution → String → M (Unit {0})
  unfolding record_event
  resolve_with_event item resolution type =
      mark_resolved env item.id resolution >>= λ _. record_event (event_of type item)

  -- The later of the cooldown that is set and the one that is given.
  unfoldable pub keep_later_cooldown : ℕ → M (Unit {0})
  keep_later_cooldown earliest db =
      set_next_review_available_at env.now (later_of (get_next_review_available_at db) earliest) db

  unfoldable pub reschedule_with_cooldown : ReviewQueue → CommentDetails → String → ℕ → M (Unit {0})
  unfolding keep_later_cooldown
  reschedule_with_cooldown item source original_url earliest =
      reschedule env item.id source (some original_url) >>= λ _. keep_later_cooldown earliest

  -- A failure: the item is resolved where its attempts are used up, and backs off elsewhere.
  unfoldable pub fail_or_back_off : ReviewQueue → M (Unit {0})
  unfolding resolve_with_event
  fail_or_back_off item =
      if leb cfg.max_retrigger_attempts item.attempts
      then resolve_with_event item failed "failed"
      else (backoff env item.id >>= λ _. return tt)

  -- After a retrigger: one attempt more, or the cap.
  unfoldable pub count_attempt : ReviewQueue → M (Unit {0})
  unfolding resolve_with_event
  count_attempt item =
      let new_attempts = item.attempts + 1 in
      if leb cfg.max_retrigger_attempts new_attempts
      then resolve_with_event item failed "failed"
      else increment_attempts env item.id new_attempts
