-- ===== src/Activity/Examples.antt =====
-- A retriggered row with a comment that limits the review.
use rabbit_maximizer.Prelude.{none, some}
use rabbit_maximizer.Activity.{DeriveStatusInput}

abbrev limited_row : DeriveStatusInput
limited_row = record {
  status = "retriggered";
  resolution = none;
  last_coderabbit_acknowledged_at = none;
  retrigger_comment_url = none;
  source_comment_url = some "https://c/11";
  coderabbit_review_state = none;
  coderabbit_review_url = none;
  last_review_state = none;
  last_review_url = none;
  pr_state = some "open";
}
