-- ===== src/Detection.antt =====
-- EnqueueService (src/EnqueueService.ts): what becomes of a detected comment.
pub mod Dismissal
pub mod Tables
pub mod Latched
mod Examples
use rabbit_maximizer.Prelude.{
  ℕ, ◌+◌, ◌*◌, String, Bool, true, false, Option, none, some, leb, if◌then◌else◌,
}
use rabbit_maximizer.Domain.{
  CommentId, CodeRabbitCommentType, review_limited, review_skipped, review_approved,
  review_changes_suggested, unknown,
}
use rabbit_maximizer.Schema.{CoderabbitComment, Event, Db}
use rabbit_maximizer.Store.{Env, M, ◌>>=◌, ◌>>◌, return, record_event}
use rabbit_maximizer.Queue.Requests.{EnqueueData, EnqueueResult}
use rabbit_maximizer.Queue.Enqueue.{enqueue}
use rabbit_maximizer.PullRequests.{record_review_limit_detection, record_review}
use rabbit_maximizer.Comments.{UpsertCommentData, upsert, find_completed_review}
use rabbit_maximizer.Service.{
  CommentText, Settings, Setting, World, T, classify_coderabbit_comment, transact,
}

pub record DetectedComment : Type 0 where
  pub url : String
  pub repo_full_name : String
  pub pr_number : ℕ
  pub comment_id : CommentId
  pub created_at : ℕ
  pub updated_at : ℕ
  pub pr_title : String
  pub body : String

abbrev pub wait_or : ℕ → Option ℕ → ℕ
wait_or fallback none = fallback
wait_or fallback (some seconds) = seconds

abbrev pub event_on : String → DetectedComment → Event
event_on type c = record {
  event_type = type;
  repo_full_name = c.repo_full_name;
  pr_number = c.pr_number;
}

-- `existingReview && comment.updatedAt <= existingReview.gh_updated_at`.
abbrev pub is_already_reviewed : DetectedComment → Option CoderabbitComment → Bool
is_already_reviewed c none = false
is_already_reviewed c (some review) = leb c.updated_at review.gh_updated_at

module _ (s : Setting) where
  open s use {env, text, cfg}

  abbrev pub comment_data : DetectedComment → ℕ → UpsertCommentData
  comment_data c pull_request_id = record {
    comment_id = c.comment_id;
    pull_request_id = pull_request_id;
    url = c.url;
    comment_type = classify_coderabbit_comment text c.body;
    body_preview = text.truncate_body_preview c.body;
    gh_created_at = c.created_at;
    gh_updated_at = c.updated_at;
    coderabbit_run_id = text.extract_coderabbit_run_id c.body;
  }

  abbrev pub enqueue_data : DetectedComment → ℕ → Option ℕ → EnqueueData
  enqueue_data c pull_request_id cooldown_until = record {
    repo = c.repo_full_name;
    pr = c.pr_number;
    pr_title = c.pr_title;
    source_comment_url = c.url;
    source_comment_id = c.comment_id;
    pull_request_id = pull_request_id;
    coderabbit_run_id = text.extract_coderabbit_run_id c.body;
    comment_updated_at = some c.updated_at;
    cooldown_until = cooldown_until;
    source_comment_type = some (classify_coderabbit_comment text c.body);
  }

  -- `if (created) await probe.enqueued(tx)`: the event of the detection, for a row that is created.
  unfoldable pub note_created : DetectedComment → EnqueueResult → M (Unit {0})
  unfolding record_event
  note_created c result = if result.created then record_event (event_on "detected" c) else return tt

  unfoldable pub enqueue_comment : DetectedComment → ℕ → Option ℕ → M (Unit {0})
  unfolding note_created
  enqueue_comment c pull_request_id cooldown_until =
      enqueue env cfg.review_detection_lookback_sec (enqueue_data c pull_request_id cooldown_until)
      >>= note_created c

  -- The time of the edit and the wait that the comment names, or the fallback.
  abbrev pub cooldown_of : DetectedComment → ℕ
  cooldown_of c =
      c.updated_at + wait_or cfg.fallback_wait_seconds (text.parse_wait_seconds c.body) * 1000

  unfoldable pub by_classification : DetectedComment → ℕ → CodeRabbitCommentType → M (Unit {0})
  unfolding record_event enqueue_comment
  by_classification c id review_skipped =
      enqueue_comment c id none >>= λ _. record_event (event_on "coderabbit_review_skipped" c)
  by_classification c id review_approved =
      record_review env.now id c.url review_approved none >>= λ _.
      record_event (event_on "coderabbit_review_approved" c)
  by_classification c id review_changes_suggested =
      record_review env.now id c.url review_changes_suggested none >>= λ _.
      record_event (event_on "coderabbit_review_changes_suggested" c)
  by_classification c id review_limited = enqueue_comment c id (some (cooldown_of c))
  by_classification c id unknown = enqueue_comment c id (some (cooldown_of c))

  unfoldable pub take_in : DetectedComment → ℕ → M (Unit {0})
  unfolding by_classification
  take_in c id = record_review_limit_detection env.now id env.now >>= λ _.
      upsert env.now (comment_data c id) >>= λ _.
      by_classification c id (classify_coderabbit_comment text c.body)

  -- A review that already saw this revision dismisses the comment; its last sight is kept.
  unfoldable pub dismiss_or_take_in : DetectedComment → ℕ → Option CoderabbitComment → M (Unit {0})
  unfolding take_in
  dismiss_or_take_in c id review =
      if is_already_reviewed c review then upsert env.now (comment_data c id) else take_in c id

  unfoldable pub handle : DetectedComment → ℕ → T (Unit {0})
  unfolding dismiss_or_take_in
  handle c id w = transact (dismiss_or_take_in c id (find_completed_review id w.db)) w
