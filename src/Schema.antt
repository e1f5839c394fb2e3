-- ===== src/Schema.antt =====
-- The tables of prisma/schema.prisma. A nullable column is an Option, a DateTime the milliseconds
-- since the epoch, a table the list of its rows by rising id.
use rabbit_maximizer.Prelude.{ℕ, String, Bool, Option, List, ◌==◌, ◌&&◌, ◌||◌, str_eq, clash_free}
use rabbit_maximizer.Domain.{
  QueueStatus, Resolution, SkipReason, TriggerSource, PrState, CodeRabbitCommentType, CommentId,
  same_comment, is_pending,
}

pub record ReviewQueue : Type 0 where
  pub id : ℕ
  pub uuid : String
  pub pull_request_id : Option ℕ
  pub repo_full_name : String
  pub pr_number : ℕ
  pub pr_title : String
  pub status : QueueStatus
  pub resolution : Option Resolution
  pub resolved_at : Option ℕ
  pub attempts : ℕ
  pub last_skipped_at : Option ℕ
  pub last_skip_reason : Option SkipReason
  pub retrigger_skip_count : ℕ
  pub source_comment_url : String
  pub source_comment_id : CommentId
  pub source_comment_run_id : Option String
  pub trigger_source : TriggerSource
  pub original_source_comment_url : Option String
  pub retrigger_comment_url : Option String
  pub run_id : Option String
  pub retriggered_at : Option ℕ
  pub cooldown_until : Option ℕ
  pub failed_at : Option ℕ
  pub reviewed_at : Option ℕ
  pub created_at : ℕ
  pub updated_at : ℕ

-- The columns of the same names; `include: { queueOrder: true }` finds a row by `queue_item_id`.
pub record QueueOrder : Type 0 where
  pub id : ℕ
  pub queue_item_id : ℕ
  pub position : Option ℕ
  pub created_at : ℕ
  pub updated_at : ℕ

pub record PullRequest : Type 0 where
  pub id : ℕ
  pub uuid : String
  pub repo_full_name : String
  pub pr_number : ℕ
  pub title : String
  pub author_login : String
  pub pr_state : PrState
  pub merged_at : Option ℕ
  pub closed_at : Option ℕ
  pub first_seen_at : ℕ
  pub first_review_limit_at : Option ℕ
  pub last_review_limit_at : Option ℕ
  pub last_review_requested_at : Option ℕ
  pub last_coderabbit_review_at : Option ℕ
  pub last_review_url : Option String
  pub last_review_state : Option CodeRabbitCommentType
  pub last_coderabbit_acknowledged_at : Option ℕ
  pub head_sha : Option String
  pub reviewed_head_sha : Option String
  pub head_committed_at : Option ℕ
  pub retrigger_count : ℕ
  pub review_count : ℕ
  pub created_at : ℕ
  pub updated_at : ℕ

-- One row for each head that was ever seen of a pull request.
pub record PullRequestSha : Type 0 where
  pub id : ℕ
  pub pull_request_id : ℕ
  pub sha : String
  pub first_observed_at : ℕ
  pub last_observed_at : ℕ

pub record CoderabbitComment : Type 0 where
  pub id : ℕ
  pub pull_request_id : ℕ
  pub comment_id : CommentId
  pub url : String
  pub comment_type : CodeRabbitCommentType
  pub last_body_preview : Option String
  pub coderabbit_run_id : Option String
  pub gh_created_at : ℕ
  pub gh_updated_at : ℕ
  pub first_seen_at : ℕ
  pub last_seen_at : ℕ
  pub is_not_deleted : Bool

pub record SystemStateRow : Type 0 where
  pub state_key : String
  pub value_text : Option String
  pub value_integer : Option ℕ
  pub value_float : Option ℕ
  pub value_datetime : Option ℕ
  pub updated_at : ℕ

-- An event of the audit log: its type with what names the pull request. The payload is left out.
pub record Event : Type 0 where
  pub event_type : String
  pub repo_full_name : String
  pub pr_number : ℕ

-- What a transaction reads and writes; the last five are the autoincrement counters.
pub record Db : Type 0 where
  pub review_queue : List ReviewQueue
  pub queue_order : List QueueOrder
  pub pull_request : List PullRequest
  pub system_state : List SystemStateRow
  pub events : List Event
  pub coderabbit_comment : List CoderabbitComment
  pub next_id : ℕ
  pub next_order_id : ℕ
  pub pull_request_sha : List PullRequestSha
  pub next_comment_id : ℕ
  pub next_pr_id : ℕ
  pub next_sha_id : ℕ

abbrev pub for_pr : String → ℕ → ReviewQueue → Bool
for_pr repo pr r = str_eq r.repo_full_name repo && r.pr_number == pr

-- Two rows that no table may hold together: the primary key, `uuid` and `source_comment_id` are
-- unique, and `review_queue_pending_unique` allows one pending row for a pull request.
abbrev pub clash : ReviewQueue → ReviewQueue → Bool
clash r s =
    r.id == s.id
    || str_eq r.uuid s.uuid
    || same_comment r.source_comment_id s.source_comment_id
    || (is_pending r.status && is_pending s.status && for_pr s.repo_full_name s.pr_number r)

unfoldable pub unique_ok : List ReviewQueue → Bool
unique_ok rows = clash_free clash rows
