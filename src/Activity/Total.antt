-- ===== src/Activity/Total.antt =====
-- What the activity status of a row tells, whatever the columns hold.
use rabbit_maximizer.Prelude.{
  ◌≡◌, Bool, true, false, not, ◌&&◌, ◌||◌, Option, none, some, is_some, opt_str_eq, String,
}
use rabbit_maximizer.Domain.{
  QueueStatus, is_pending, is_retriggered, is_resolved, Resolution, review_completed, pr_merged,
}
use rabbit_maximizer.Activity.{
  DeriveStatusInput, ActivityState, ActivityStatus, is_truthy, or_other, resolution_name,
  state_pr_merged, state_review_limited, state_review_in_progress, state_awaiting_review,
  state_pending, state_review_completed,
}

abbrev pub names : Option Resolution → Option String
names none = none
names (some r) = some (resolution_name r)

abbrev pub is_completed : Option Resolution → Bool
is_completed none = true
is_completed (some review_completed) = true
is_completed _ = false

abbrev pub is_review : Option Resolution → Bool
is_review (some review_completed) = true
is_review _ = false

-- The review state of the comment, or that of the pull request where the comment has none.
abbrev pub recorded : DeriveStatusInput → Option String
recorded item = or_other item.coderabbit_review_state item.last_review_state

abbrev pub is_verdict : Option String → Bool
is_verdict t = opt_str_eq t (some "review_approved") || opt_str_eq t (some "review_changes_suggested")

abbrev pub is_merge : Option Resolution → Bool
is_merge (some pr_merged) = true
is_merge _ = false

abbrev pub is_limited : ActivityState → Bool
is_limited state_review_limited = true
is_limited _ = false

abbrev pub is_merged : ActivityState → Bool
is_merged state_pr_merged = true
is_merged _ = false

abbrev pub is_in_progress : ActivityState → Bool
is_in_progress state_review_in_progress = true
is_in_progress _ = false

abbrev pub is_awaiting : ActivityState → Bool
is_awaiting state_awaiting_review = true
is_awaiting _ = false

abbrev pub is_waiting : ActivityState → Bool
is_waiting state_pending = true
is_waiting _ = false

abbrev pub is_reviewed : ActivityState → Bool
is_reviewed state_review_completed = true
is_reviewed _ = false

module _ (item : DeriveStatusInput) (q : QueueStatus) (r : Option Resolution) where
  abbrev pub has_source : Bool
  has_source = is_truthy item.source_comment_url

  abbrev pub is_answered : Bool
  is_answered = is_truthy item.last_coderabbit_acknowledged_at

  abbrev pub is_merged_pr : Bool
  is_merged_pr = opt_str_eq item.pr_state (some "merged")

  -- When each state shows, by what the row is.
  abbrev pub Tells : ActivityStatus → Type 0
  Tells a =
      (is_limited a.state ≡ (not (is_resolved q) && has_source))
      × (is_waiting a.state ≡ (is_pending q && not has_source))
      × (is_in_progress a.state ≡ (is_retriggered q && not has_source && is_answered))
      × (is_awaiting a.state ≡ (is_retriggered q && not has_source && not is_answered))
      × (is_merged a.state ≡ (is_resolved q && (is_merged_pr || is_merge r)))
      × (is_reviewed a.state ≡ (is_resolved q && not is_merged_pr && is_completed r))
      × (is_some a.sub_state
          ≡ (is_resolved q && not is_merged_pr && is_review r && is_verdict (recorded item)))
