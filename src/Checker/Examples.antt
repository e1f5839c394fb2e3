-- ===== src/Checker/Examples.antt =====
-- A limited comment that is handed on, and the same comment once it is stored.
use rabbit_maximizer.Prelude.{◌≡◌, refl, true, none, [], ◌∷◌, All}
use rabbit_maximizer.Domain.{pos, review_limited}
use rabbit_maximizer.Schema.{CoderabbitComment}
use rabbit_maximizer.Samples.{plain_text, at_time}
use rabbit_maximizer.Queue.Traces.{empty_db}
use rabbit_maximizer.Comments.{find_by_comment_id, find_completed_review}
use rabbit_maximizer.PullRequests.{record_review_limit_detection}
use rabbit_maximizer.Store.{with_prisma_error_handling}
use rabbit_maximizer.Service.{World, answered, transact}
use rabbit_maximizer.Discovery.{DirectCheckPr}
use rabbit_maximizer.Detection.{handle}
use rabbit_maximizer.Github.{ListedComment}
use rabbit_maximizer.Github.Text.{split_repo}
use rabbit_maximizer.Checker.{CheckSetting, check}
use rabbit_maximizer.Checker.Candidates.{IsCandidate, check-IsCandidate}
use rabbit_maximizer.Checker.Seen.{check-old}

abbrev limited_comment : ListedComment
limited_comment = record {
  body = "rate limited by coderabbit.ai";
  user = "coderabbitai[bot]";
  id = 905;
  created_at = 40;
  updated_at = 50;
}

abbrev pub checking : CheckSetting
checking = record {
  now = 100000000;
  text = plain_text;
  list_comments = λ _ _. answered (limited_comment ∷ []);
  on_detected = handle (at_time 100000000);
}

abbrev pub known_pr : DirectCheckPr
known_pr = record { repo_full_name = "o/r"; pr_number = 7; pull_request_id = 3; pr_title = "Add" }

abbrev unseen : World
unseen = record { db = empty_db; posts = []; fetched = [] }

check-IsCandidate_example :
    All (IsCandidate checking (known_pr ∷ [])) (check checking (known_pr ∷ []) unseen).0
check-IsCandidate_example = check-IsCandidate checking (known_pr ∷ []) unseen

-- The candidate stays though the handling fails, since the pull request has no row.
check-candidate :
    (check checking (known_pr ∷ []) unseen).0 ≡ record { updated_at = 50; wait_seconds = none } ∷ []
unfolding check split_repo find_by_comment_id handle transact find_completed_review
    record_review_limit_detection with_prisma_error_handling
check-candidate = refl

abbrev stored_comment : CoderabbitComment
stored_comment = record {
  id = 1;
  pull_request_id = 3;
  comment_id = pos 905;
  url = "https://github.com/o/r/pull/7#issuecomment-905";
  comment_type = review_limited;
  last_body_preview = none;
  coderabbit_run_id = none;
  gh_created_at = 40;
  gh_updated_at = 50;
  first_seen_at = 60;
  last_seen_at = 60;
  is_not_deleted = true;
}

abbrev seen : World
seen = record { db = record empty_db { coderabbit_comment = stored_comment ∷ [] }; posts = []; fetched = [] }

check-old_example : check checking (known_pr ∷ []) seen ≡ ([], seen)
unfolding split_repo find_by_comment_id
check-old_example = check-old checking (known_pr ∷ []) seen ((refl, tt), tt)
