-- ===== src/Reviews.antt =====
-- EditDetector (src/EditDetector.ts) and ReviewDetector (src/ReviewDetector.ts): how a retriggered
-- item is resolved, reopened, or adopts the run that its comment now names.
pub mod Detector
pub mod Kept
pub mod Tick
pub mod Retriggered
pub mod Tables
mod Examples
use rabbit_maximizer.Prelude.{
  ℕ, ◌-◌, ◌*◌, String, Bool, true, false, not, Option, none, some, List, [], ◌∷◌, leb, opt_str_eq,
  if◌then◌else◌, keep, find,
}
use rabbit_maximizer.Domain.{
  CodeRabbitCommentType, review_limited, review_skipped, review_approved, review_changes_suggested,
  unknown, Resolution, review_completed, pr_merged, pr_closed_without_merge, skipped, PrState,
  closed, merged, open_pr, is_retriggered, is_review_skipped,
}
use rabbit_maximizer.Schema.{ReviewQueue, PullRequest, CoderabbitComment, Event, Db}
use rabbit_maximizer.Store.{Env, M, ◌>>=◌, ◌>>◌, return, record_event}
use rabbit_maximizer.Queue.Marks.{
  mark_resolved_if_still_retriggered, adopt_run_if_still_retriggered, reopen_stale_retriggered,
  ReopenStaleRetriggeredOptions,
}
use rabbit_maximizer.Queue.Requests.{should_reopen_stale_retriggered}
use rabbit_maximizer.PullRequests.{has_pr_id, record_review}
use rabbit_maximizer.Comments.{UpsertCommentData, upsert, find_by_comment_id}
use rabbit_maximizer.Service.{
  CommentText, Settings, Setting, GithubClient, Response, answered, refused, FetchedComment,
  CompletedReview, World, T, classify_coderabbit_comment,
}
use rabbit_maximizer.Scheduler.Recording.{event_of, pull_request_id_of}

pub data FallbackReason : Type 0 where
  not_found not_edited not_a_review : FallbackReason

pub data EditDetectionOutcome : Type 0 where
  edit_resolved : (review_url : String) (verdict : CodeRabbitCommentType) → EditDetectionOutcome
  edit_skipped : (review_url : String) → EditDetectionOutcome
  edit_adopted : (run_id : String) → EditDetectionOutcome
  fallback : FallbackReason → Option CodeRabbitCommentType → EditDetectionOutcome

-- The outcome of an edited comment, by its type now and the run that it names.
unfoldable pub outcome_by :
    CoderabbitComment → Option String → CodeRabbitCommentType → EditDetectionOutcome
outcome_by c run review_approved = edit_resolved c.url review_approved
outcome_by c run review_changes_suggested = edit_resolved c.url review_changes_suggested
outcome_by c none review_skipped = edit_skipped c.url
outcome_by c (some run) review_skipped =
    if opt_str_eq (some run) c.coderabbit_run_id then edit_skipped c.url else edit_adopted run
outcome_by c run review_limited = fallback not_a_review (some review_limited)
outcome_by c run unknown = fallback not_a_review (some unknown)

abbrev pub review_event_type : CodeRabbitCommentType → String
review_event_type review_approved = "coderabbit_review_approved"
review_event_type _ = "coderabbit_review_changes_suggested"

module _ (s : Setting) where
  open s use {env}

  -- The transaction of a review that was found: nothing more where the item lost the race.
  unfoldable pub note_reviewed :
      ReviewQueue → String → CodeRabbitCommentType → Option String → Bool → M Bool
  unfolding record_event
  note_reviewed item url verdict commit false = return false
  note_reviewed item url verdict commit true =
      record_review env.now (pull_request_id_of item) url verdict commit >>= λ _.
      record_event (event_of (review_event_type verdict) item) >>= λ _. return true

  unfoldable pub resolve_reviewed :
      ReviewQueue → String → CodeRabbitCommentType → Option String → M Bool
  unfolding note_reviewed
  resolve_reviewed item url verdict commit =
      mark_resolved_if_still_retriggered env item.id review_completed
      >>= note_reviewed item url verdict commit

  unfoldable pub note_fallback : ReviewQueue → Bool → M Bool
  unfolding record_event
  note_fallback item false = return false
  note_fallback item true =
      record_event (event_of "coderabbit_review_approved" item) >>= λ _. return true

  unfoldable pub resolve_via_fallback : ReviewQueue → M Bool
  unfolding note_fallback
  resolve_via_fallback item =
      mark_resolved_if_still_retriggered env item.id review_completed >>= note_fallback item
