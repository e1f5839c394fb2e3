-- ===== src/Queue/Enqueue.antt =====
-- QueueRepository.enqueue and the private methods that it calls.
pub mod Conflicting
pub mod Adopts
pub mod Inserts
pub mod Keeps
pub mod Decision
pub mod Outcomes
pub mod Decides
pub mod Guards
pub mod Conflicts
pub mod Elsewhere
mod Examples
use rabbit_maximizer.Prelude.{
  ℕ, ◌-◌, ◌*◌, String, List, Bool, true, false, not, Option, none, some, ◌==◌, ◌&&◌, ltb, leb,
  opt_str_eq, if◌then◌else◌, find,
}
use rabbit_maximizer.Domain.{
  pending, scheduler, skipped, CodeRabbitCommentType, CommentId, same_comment, is_pending,
  is_retriggered, is_resolved, is_reopenable, is_review_skipped,
}
use rabbit_maximizer.Schema.{ReviewQueue, PullRequest, for_pr}
use rabbit_maximizer.Store.{
  Env, M, ◌>>=◌, ◌>>◌, return, throw, catch, Error, unique_constraint_violation,
  with_prisma_error_handling, update, update_many, create, create_order, record_event, has_id,
}
use rabbit_maximizer.Queue.Marks.{
  resolve_row, reopen_row, ReopenStaleRetriggeredOptions, ensure_order, still_retriggered,
  reopen_stale_retriggered, dated_before,
}
use rabbit_maximizer.Queue.Requests.{
  completed_guard_window_ms, EnqueueData, EnqueueResult, existing, newly_pending, newer_than,
  should_reopen_stale_retriggered, reopen_options, is_retriggered_for, is_resolved_from,
  is_reopenable_from, dated_from, is_cooling, is_new_run,
}

module _ (env : Env) (lookback_sec : ℕ) where
  open env use {now, new_uuid, find_first}

  pub enqueued : EnqueueData → M Unit
  unfolding record_event
  enqueued d =
      record_event (record { event_type = "enqueued"; repo_full_name = d.repo; pr_number = d.pr })

  stale_reopened : EnqueueData → ReviewQueue → Bool → M (Option EnqueueResult)
  stale_reopened d recent false = return none
  stale_reopened d recent true = return (
      some (
        newly_pending (record recent {
          status = pending;
          pr_title = d.pr_title;
          source_comment_run_id = d.coderabbit_run_id;
          cooldown_until = d.cooldown_until;
        })))

  reopen_unreviewed : EnqueueData → ReviewQueue → Option PullRequest → M (Option EnqueueResult)
  unfolding stale_reopened
  reopen_unreviewed d recent none = return none
  reopen_unreviewed d recent (some pull_request) =
      if should_reopen_stale_retriggered recent.retriggered_at pull_request.head_sha
        pull_request.reviewed_head_sha (lookback_sec * 1000) now
      then (reopen_stale_retriggered env recent.id (reopen_options d) >>= stale_reopened d recent)
      else return none

  unfoldable pub try_reopen_stale_retriggered : EnqueueData → ReviewQueue → M (Option EnqueueResult)
  unfolding reopen_unreviewed
  try_reopen_stale_retriggered d recent db =
      if is_review_skipped d.source_comment_type
      then reopen_unreviewed d recent (find (λ p. p.id == d.pull_request_id) db.pull_request) db
      else return none db

  abbrev pub adopt_run_row : EnqueueData → ReviewQueue → ReviewQueue
  adopt_run_row d r = record r {
    source_comment_run_id = d.coderabbit_run_id;
    retriggered_at = some now;
  }

  pub adopt_new_run : EnqueueData → ReviewQueue → M EnqueueResult
  adopt_new_run d recent = do
    count ←
        update_many (still_retriggered recent.id)
          (λ r. record (adopt_run_row d r) { updated_at = now })
    return (existing (if count == 0 then recent else adopt_run_row d recent))

  same_comment_unless : EnqueueData → ReviewQueue → Option EnqueueResult → M EnqueueResult
  unfolding adopt_new_run
  same_comment_unless d recent (some reopened) = return reopened
  same_comment_unless d recent none =
      if is_new_run d.coderabbit_run_id recent.source_comment_run_id
      then adopt_new_run d recent
      else return (existing recent)

  pub adopt_same_comment : EnqueueData → ReviewQueue → M EnqueueResult
  unfolding same_comment_unless
  adopt_same_comment d recent =
      try_reopen_stale_retriggered d recent >>= same_comment_unless d recent

  abbrev pub replace_comment_row : EnqueueData → ReviewQueue → ReviewQueue
  replace_comment_row d r = record r {
    source_comment_url = d.source_comment_url;
    source_comment_id = d.source_comment_id;
    source_comment_run_id = d.coderabbit_run_id;
    retriggered_at = some now;
  }

  pub replace_comment : EnqueueData → ReviewQueue → M EnqueueResult
  replace_comment d recent = do
    count ←
        update_many (still_retriggered recent.id)
          (λ r. record (replace_comment_row d r) { updated_at = now })
    return (existing (if count == 0 then recent else replace_comment_row d recent))

  -- The resolved row of the comment becomes pending, and keeps or rejoins the queue order.
  pub reopen_resolved : EnqueueData → ReviewQueue → M ReviewQueue
  unfolding ensure_order
  reopen_resolved d conflicting = do
    reopened ← update (has_id conflicting.id) (reopen_row now (reopen_options d))
    ensure_order now conflicting.id
    return reopened

  -- The row of the comment is reopened, and the retriggered row resolved.
  reopen_in_place : EnqueueData → ReviewQueue → ReviewQueue → M EnqueueResult
  unfolding reopen_resolved enqueued
  reopen_in_place d recent conflicting = do
    reopened ← reopen_resolved d conflicting
    _ ← update_many (still_retriggered recent.id) (resolve_row now skipped)
    enqueued d
    return (newly_pending reopened)

  resolve_conflicting : EnqueueData → ReviewQueue → Option ReviewQueue → M EnqueueResult
  unfolding replace_comment reopen_in_place
  resolve_conflicting d recent none = replace_comment d recent
  resolve_conflicting d recent (some conflicting) =
      if newer_than d.comment_updated_at conflicting.resolved_at
      then reopen_in_place d recent conflicting
      else return (existing recent)

  pub adopt_other_comment : EnqueueData → ReviewQueue → M EnqueueResult
  unfolding resolve_conflicting
  adopt_other_comment d recent db =
      resolve_conflicting d recent
        (find_first.apply (λ r. is_reopenable_from d r && not (has_id recent.id r)) db.review_queue)
        db

  adopt_found : EnqueueData → ReviewQueue → M EnqueueResult
  unfolding adopt_same_comment adopt_other_comment
  adopt_found d recent =
      if same_comment recent.source_comment_id d.source_comment_id
      then adopt_same_comment d recent
      else adopt_other_comment d recent

  -- tryCooldownGuard: the resolved row that blocks the comment while its cooldown runs.
  unfoldable pub cooldown_guard : EnqueueData → List ReviewQueue → Option ReviewQueue
  cooldown_guard d rows =
      if is_cooling now d.cooldown_until then find_first.apply (is_resolved_from d) rows else none

  -- tryRecentResolvedGuard: the row of the comment resolved within the guard window.
  unfoldable pub recent_resolved_guard : EnqueueData → List ReviewQueue → Option ReviewQueue
  recent_resolved_guard d rows =
      find_first.apply
        (λ r. is_resolved_from d r && dated_from (now - completed_guard_window_ms) r.resolved_at)
        rows

  abbrev pub new_row : EnqueueData → ℕ → ReviewQueue
  new_row d id = record {
    id = id;
    uuid = new_uuid;
    pull_request_id = some d.pull_request_id;
    repo_full_name = d.repo;
    pr_number = d.pr;
    pr_title = d.pr_title;
    status = pending;
    resolution = none;
    resolved_at = none;
    attempts = 0;
    last_skipped_at = none;
    last_skip_reason = none;
    retrigger_skip_count = 0;
    source_comment_url = d.source_comment_url;
    source_comment_id = d.source_comment_id;
    source_comment_run_id = d.coderabbit_run_id;
    trigger_source = scheduler;
    original_source_comment_url = none;
    retrigger_comment_url = none;
    run_id = none;
    retriggered_at = none;
    cooldown_until = d.cooldown_until;
    failed_at = none;
    reviewed_at = none;
    created_at = now;
    updated_at = now;
  }

  reopen_existing : EnqueueData → Error → Option ReviewQueue → M EnqueueResult
  unfolding reopen_resolved enqueued
  reopen_existing d e none = throw e
  reopen_existing d e (some resolved) =
      if newer_than d.comment_updated_at resolved.resolved_at
      then (do updated ← reopen_resolved d resolved; enqueued d; return (newly_pending updated))
      else return (existing resolved)

  existing_pending : EnqueueData → Error → Option ReviewQueue → M EnqueueResult
  unfolding reopen_existing
  existing_pending d e (some row) db = return (existing row) db
  existing_pending d e none db =
      reopen_existing d e (find_first.apply (is_reopenable_from d) db.review_queue) db

  unfoldable pub handle_enqueue_conflict : EnqueueData → Error → M EnqueueResult
  unfolding existing_pending
  handle_enqueue_conflict d unique_constraint_violation db =
      existing_pending d unique_constraint_violation
        (find_first.apply (λ r. for_pr d.repo d.pr r && is_pending r.status) db.review_queue) db
  handle_enqueue_conflict d e db = throw e db

  unfoldable pub create_queue_row : EnqueueData → M EnqueueResult
  unfolding create_order enqueued
  create_queue_row d =
      catch
        (do
          row ← with_prisma_error_handling (create (new_row d))
          create_order now row.id none
          enqueued d
          return (newly_pending row))
        (handle_enqueue_conflict d)

  guarded : EnqueueData → Option ReviewQueue → Option ReviewQueue → M EnqueueResult
  guarded d (some cooling) recent = return (existing cooling)
  guarded d none (some recent) = return (existing recent)
  guarded d none none = create_queue_row d

  adopt_or_create : EnqueueData → Option ReviewQueue → M EnqueueResult
  unfolding adopt_found guarded
  adopt_or_create d (some recent) db = adopt_found d recent db
  adopt_or_create d none db =
      guarded d (cooldown_guard d db.review_queue) (recent_resolved_guard d db.review_queue) db

  unfoldable pub enqueue : EnqueueData → M EnqueueResult
  unfolding adopt_or_create
  enqueue d db = adopt_or_create d (find_first.apply (is_retriggered_for d) db.review_queue) db
