-- ===== src/Domain.antt =====
-- The enumerations of the domain (domain.ts and the files it gathers): QueueStatus.ts, Resolution.ts,
-- SkipReason.ts, TriggerSource.ts, PrState.ts, CodeRabbitCommentType.ts, and `===` on them.
use rabbit_maximizer.Prelude.{ℕ, Bool, true, false, Option, some, ◌==◌}

pub data QueueStatus : Type 0 where
  pending retriggered resolved : QueueStatus

pub data Resolution : Type 0 where
  review_completed manual_review pr_merged pr_closed_without_merge failed skipped : Resolution
  stale_comment : Resolution

pub data SkipReason : Type 0 where
  cooldown settling : SkipReason

pub data TriggerSource : Type 0 where
  dashboard_retrigger_now scheduler : TriggerSource

pub data PrState : Type 0 where
  closed merged open_pr : PrState

pub data CodeRabbitCommentType : Type 0 where
  review_limited review_skipped review_approved review_changes_suggested unknown :
      CodeRabbitCommentType

-- A GitHub comment id, or the negative time stamp of a synthetic comment.
pub data CommentId : Type 0 where
  pos : ℕ → CommentId
  negsuc : ℕ → CommentId

abbrev pub same_comment : CommentId → CommentId → Bool
same_comment (pos a) (pos b) = a == b
same_comment (negsuc a) (negsuc b) = a == b
same_comment _ _ = false

abbrev pub is_pending : QueueStatus → Bool
is_pending pending = true
is_pending _ = false

abbrev pub is_retriggered : QueueStatus → Bool
is_retriggered retriggered = true
is_retriggered _ = false

abbrev pub is_resolved : QueueStatus → Bool
is_resolved resolved = true
is_resolved _ = false

-- ACTIVE_STATUSES and EFFECTIVE_ORDER_STATUSES.
abbrev pub is_active : QueueStatus → Bool
is_active resolved = false
is_active _ = true

-- REOPENABLE_RESOLUTIONS, as `resolution: { in: [...] }`.
abbrev pub is_reopenable : Option Resolution → Bool
is_reopenable (some review_completed) = true
is_reopenable (some failed) = true
is_reopenable (some skipped) = true
is_reopenable _ = false

abbrev pub is_review_skipped : Option CodeRabbitCommentType → Bool
is_review_skipped (some review_skipped) = true
is_review_skipped _ = false
