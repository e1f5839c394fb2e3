-- ===== src/Activity.antt =====
-- deriveActivityStatus (src/utils/deriveActivityStatus.ts): what the dashboard shows for a row. The
-- columns are texts here, as they are in the source, and an unknown one throws.
pub mod Total
mod Examples
use rabbit_maximizer.Prelude.{
  String, Bool, true, false, Option, none, some, str_eq, opt_str_eq, if◌then◌else◌, ◌||◌,
}
use rabbit_maximizer.Domain.{
  QueueStatus, pending, retriggered, resolved, Resolution, review_completed, manual_review,
  pr_merged, pr_closed_without_merge, failed, skipped, stale_comment,
}
use rabbit_maximizer.Store.{Result, ok, err, unexpected_switch_default}

pub data ActivityState : Type 0 where
  state_review_completed state_manual_review state_failed state_pr_merged : ActivityState
  state_pr_closed state_skipped state_review_in_progress state_review_limited : ActivityState
  state_awaiting_review state_stale_comment state_pending : ActivityState

pub record ActivityStatus : Type 0 where
  pub state : ActivityState
  pub link_url : Option String
  pub sub_state : Option String

pub record DeriveStatusInput : Type 0 where
  pub status : String
  pub resolution : Option String
  pub last_coderabbit_acknowledged_at : Option String
  pub retrigger_comment_url : Option String
  pub source_comment_url : Option String
  pub coderabbit_review_state : Option String
  pub coderabbit_review_url : Option String
  pub last_review_state : Option String
  pub last_review_url : Option String
  pub pr_state : Option String

abbrev pub shown : ActivityState → Option String → ActivityStatus
shown state link = record { state = state; link_url = link; sub_state = none }

-- `a ?? b`.
abbrev pub or_other : Option String → Option String → Option String
or_other none b = b
or_other (some a) b = some a

-- A text that is neither absent nor empty.
abbrev pub is_truthy : Option String → Bool
is_truthy none = false
is_truthy (some t) = if str_eq t "" then false else true

-- isReviewVerdictState, which keeps the state where it holds.
abbrev pub verdict_or_none : Option String → Option String
verdict_or_none none = none
verdict_or_none (some t) =
    if str_eq t "review_approved" || str_eq t "review_changes_suggested" then some t else none

abbrev pub reviewed_status : DeriveStatusInput → ActivityStatus
reviewed_status item = record {
  state = state_review_completed;
  link_url = or_other item.coderabbit_review_url item.last_review_url;
  sub_state = verdict_or_none (or_other item.coderabbit_review_state item.last_review_state);
}

unfoldable pub by_resolution : DeriveStatusInput → String → Result ActivityStatus
by_resolution item resolution =
    if str_eq resolution "review_completed"
    then ok (reviewed_status item)
    else if str_eq resolution "failed"
    then ok (shown state_failed none)
    else if str_eq resolution "pr_merged"
    then ok (shown state_pr_merged none)
    else if str_eq resolution "pr_closed_without_merge"
    then ok (shown state_pr_closed none)
    else if str_eq resolution "skipped"
    then ok (shown state_skipped item.source_comment_url)
    else if str_eq resolution "stale_comment"
    then ok (shown state_stale_comment item.source_comment_url)
    else if str_eq resolution "manual_review"
    then ok (shown state_manual_review none)
    else err unexpected_switch_default

abbrev pub resolution_status : DeriveStatusInput → Option String → Result ActivityStatus
resolution_status item none = ok (shown state_review_completed none)
resolution_status item (some resolution) = by_resolution item resolution

unfoldable pub resolved_status : DeriveStatusInput → Result ActivityStatus
unfolding by_resolution
resolved_status item =
    if opt_str_eq item.pr_state (some "merged")
    then ok (shown state_pr_merged none)
    else resolution_status item item.resolution

unfoldable pub retriggered_status : DeriveStatusInput → ActivityStatus
retriggered_status item =
    if is_truthy item.source_comment_url
    then shown state_review_limited item.source_comment_url
    else if is_truthy item.last_coderabbit_acknowledged_at
    then shown state_review_in_progress item.retrigger_comment_url
    else shown state_awaiting_review item.retrigger_comment_url

unfoldable pub pending_status : DeriveStatusInput → ActivityStatus
pending_status item =
    if is_truthy item.source_comment_url
    then shown state_review_limited item.source_comment_url
    else shown state_pending none

unfoldable pub derive_activity_status : DeriveStatusInput → Result ActivityStatus
unfolding resolved_status retriggered_status pending_status
derive_activity_status item =
    if str_eq item.status "resolved"
    then resolved_status item
    else if str_eq item.status "retriggered"
    then ok (retriggered_status item)
    else if str_eq item.status "pending"
    then ok (pending_status item)
    else err unexpected_switch_default

-- The texts that the columns hold for the values of the enumerations.
abbrev pub status_name : QueueStatus → String
status_name pending = "pending"
status_name retriggered = "retriggered"
status_name resolved = "resolved"

abbrev pub resolution_name : Resolution → String
resolution_name review_completed = "review_completed"
resolution_name manual_review = "manual_review"
resolution_name pr_merged = "pr_merged"
resolution_name pr_closed_without_merge = "pr_closed_without_merge"
resolution_name failed = "failed"
resolution_name skipped = "skipped"
resolution_name stale_comment = "stale_comment"
