-- ===== src/Reviews/Detector.antt =====
-- EditDetector.detectEdit and ReviewDetector.executeTick.
use rabbit_maximizer.Prelude.{
  ℕ, ◌-◌, ◌*◌, String, Bool, true, false, Option, none, some, List, [], ◌∷◌, leb, if◌then◌else◌,
  keep, find, is_some,
}
use rabbit_maximizer.Domain.{
  CodeRabbitCommentType, review_approved, review_changes_suggested, pr_merged,
  pr_closed_without_merge, skipped, PrState, closed, merged, open_pr, is_retriggered,
  is_review_skipped,
}
use rabbit_maximizer.Schema.{ReviewQueue, PullRequest, CoderabbitComment, Db}
use rabbit_maximizer.Order.{sort}
use rabbit_maximizer.Queue.Marks.{
  mark_resolved_if_still_retriggered, adopt_run_if_still_retriggered, reopen_stale_retriggered,
}
use rabbit_maximizer.Queue.Requests.{should_reopen_stale_retriggered}
use rabbit_maximizer.PullRequests.{has_pr_id}
use rabbit_maximizer.Comments.{UpsertCommentData, upsert, find_by_comment_id}
use rabbit_maximizer.Service.{
  Setting, FetchedComment, CompletedReview, T, ◌>>=◌, return, transact, catch, answer,
  classify_coderabbit_comment,
}
use rabbit_maximizer.Scheduler.Recording.{pull_request_id_of}
use rabbit_maximizer.Reviews.{
  not_found, not_edited, EditDetectionOutcome, edit_resolved, edit_skipped, edit_adopted, fallback,
  outcome_by, resolve_reviewed, resolve_via_fallback,
}

-- The columns that `getColumnMaps` reads, by the pull request of the item.
abbrev pub pull_request_of : List PullRequest → ReviewQueue → Option PullRequest
pull_request_of prs item = find (has_pr_id (pull_request_id_of item)) prs

abbrev pub state_of : Option PullRequest → PrState
state_of none = open_pr
state_of (some p) = p.pr_state

abbrev pub head_of : Option PullRequest → Option String
head_of none = none
head_of (some p) = p.head_sha

abbrev pub reviewed_head_of : Option PullRequest → Option String
reviewed_head_of none = none
reviewed_head_of (some p) = p.reviewed_head_sha

abbrev pub last_review_of : Option PullRequest → Option ℕ
last_review_of none = none
last_review_of (some p) = p.last_coderabbit_review_at

-- expectedHeadShaForSourceCommentType.ts
abbrev pub expected_head_sha : Option CodeRabbitCommentType → Option String → Option String
expected_head_sha type head = if is_review_skipped type then head else none

abbrev pub from_date : ℕ → Option ℕ → Bool
from_date since none = false
from_date since (some t) = leb since t

abbrev pub verdict_of : CompletedReview → CodeRabbitCommentType
verdict_of review = if review.is_approval then review_approved else review_changes_suggested

-- getRetriggeredQueue: by `retriggered_at`, a null first.
abbrev pub retriggered_before : Option ℕ → Option ℕ → Bool
retriggered_before none b = true
retriggered_before (some a) none = false
retriggered_before (some a) (some b) = leb a b

abbrev pub get_retriggered_queue : Db → List ReviewQueue
get_retriggered_queue db =
    sort (λ a b. retriggered_before a.retriggered_at b.retriggered_at)
      (keep (λ r. is_retriggered r.status) db.review_queue)

module _ (s : Setting) where
  open s use {env, client, text, cfg}

  abbrev pub updated_comment : ReviewQueue → CoderabbitComment → FetchedComment → UpsertCommentData
  updated_comment item c fresh = record {
    comment_id = item.source_comment_id;
    pull_request_id = pull_request_id_of item;
    url = c.url;
    comment_type = classify_coderabbit_comment text fresh.body;
    body_preview = text.truncate_body_preview fresh.body;
    gh_created_at = c.gh_created_at;
    gh_updated_at = fresh.updated_at;
    coderabbit_run_id = text.extract_coderabbit_run_id fresh.body;
  }

  unfoldable pub compare_edit :
      ReviewQueue → CoderabbitComment → FetchedComment → T EditDetectionOutcome
  compare_edit item c fresh =
      if leb fresh.updated_at c.last_seen_at
      then return (fallback not_edited (some c.comment_type))
      else (transact (upsert env.now (updated_comment item c fresh)) >>= λ _. return (
          outcome_by c (text.extract_coderabbit_run_id fresh.body)
            (classify_coderabbit_comment text fresh.body)))

  unfoldable pub detect_found : ReviewQueue → Option CoderabbitComment → T EditDetectionOutcome
  unfolding compare_edit
  detect_found item none = return (fallback not_found none)
  detect_found item (some c) =
      answer (client.fetch_comment item.repo_full_name item.source_comment_id)
      >>= compare_edit item c

  unfoldable pub detect_edit : ReviewQueue → T EditDetectionOutcome
  unfolding detect_found
  detect_edit item w =
      detect_found item (find_by_comment_id (pull_request_id_of item) item.source_comment_id w.db) w

  unfoldable pub adopt_or_reopen : ReviewQueue → Option PullRequest → String → T Bool
  adopt_or_reopen item pr run =
      if should_reopen_stale_retriggered item.retriggered_at (head_of pr) (reviewed_head_of pr)
        (cfg.review_detection_lookback_sec * 1000) env.now
      then transact (
          reopen_stale_retriggered env item.id (record {
            pr_title = item.pr_title;
            coderabbit_run_id = some run;
            cooldown_until = none;
          }))
      else transact (adopt_run_if_still_retriggered env item.id item.source_comment_run_id run)

  unfoldable pub settle_review :
      ReviewQueue → Option PullRequest → ℕ → Option CompletedReview → T Bool
  settle_review item pr since (some review) =
      transact (resolve_reviewed s item review.html_url (verdict_of review) review.commit_id)
  settle_review item pr since none =
      if is_some item.source_comment_run_id
      then return false
      else if from_date since (last_review_of pr)
      then transact (resolve_via_fallback s item)
      else return false

  unfoldable pub follow : ReviewQueue → Option PullRequest → ℕ → EditDetectionOutcome → T Bool
  unfolding adopt_or_reopen settle_review
  follow item pr since (edit_resolved url verdict) =
      transact (resolve_reviewed s item url verdict none)
  follow item pr since (edit_skipped url) =
      transact (mark_resolved_if_still_retriggered env item.id skipped)
  follow item pr since (edit_adopted run) = adopt_or_reopen item pr run
  follow item pr since (fallback reason type) =
      answer (
        client.find_completed_review item.repo_full_name item.pr_number since
          item.source_comment_run_id (expected_head_sha type (head_of pr)))
      >>= settle_review item pr since

  unfoldable pub detect_open : ReviewQueue → Option PullRequest → ℕ → T Bool
  unfolding follow
  detect_open item pr retriggered_at =
      detect_edit item
      >>= follow item pr (retriggered_at - cfg.review_detection_lookback_sec * 1000)

  unfoldable pub detect_by_state : ReviewQueue → Option PullRequest → ℕ → PrState → T Bool
  unfolding detect_open
  detect_by_state item pr retriggered_at merged =
      transact (mark_resolved_if_still_retriggered env item.id pr_merged)
  detect_by_state item pr retriggered_at closed =
      transact (mark_resolved_if_still_retriggered env item.id pr_closed_without_merge)
  detect_by_state item pr retriggered_at open_pr = detect_open item pr retriggered_at

  unfoldable pub detect_item : ReviewQueue → Option PullRequest → Option ℕ → T Bool
  unfolding detect_by_state
  detect_item item pr none = return false
  detect_item item pr (some retriggered_at) = detect_by_state item pr retriggered_at (state_of pr)

  -- An error with one item is logged, and the next item follows.
  unfoldable pub detect_items : List PullRequest → List ReviewQueue → T (Unit {0})
  unfolding detect_item
  detect_items prs [] = return tt
  detect_items prs (item ∷ items) =
      catch (detect_item item (pull_request_of prs item) item.retriggered_at) (λ _. return false)
      >>= λ _. detect_items prs items

  unfoldable pub review_tick : T (Unit {0})
  unfolding detect_items
  review_tick w = detect_items w.db.pull_request (get_retriggered_queue w.db) w
