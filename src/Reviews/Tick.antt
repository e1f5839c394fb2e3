-- ===== src/Reviews/Tick.antt =====
-- What the statements of the review detector keep, a tick keeps, whatever GitHub answers and
-- wherever the tick fails.
use rabbit_maximizer.Prelude.{
  refl, ℕ, String, Bool, true, false, Option, none, some, List, [], ◌∷◌, leb, is_some,
}
use rabbit_maximizer.Domain.{
  CodeRabbitCommentType, pr_merged, pr_closed_without_merge, skipped, PrState, merged, closed,
  open_pr,
}
use rabbit_maximizer.Schema.{ReviewQueue, PullRequest, CoderabbitComment, Db}
use rabbit_maximizer.Store.{record_event}
use rabbit_maximizer.Queue.Rules.{done, Holds-bind}
use rabbit_maximizer.Queue.Marks.{adopt_run_if_still_retriggered, reopen_stale_retriggered}
use rabbit_maximizer.PullRequests.{record_review}
use rabbit_maximizer.Comments.{upsert}
use rabbit_maximizer.Service.{
  Setting, return, transact, catch, answer, FetchedComment, CompletedReview,
}
use rabbit_maximizer.Reviews.{
  EditDetectionOutcome, edit_resolved, edit_skipped, edit_adopted, fallback, note_reviewed,
  resolve_reviewed, note_fallback, resolve_via_fallback,
}
use rabbit_maximizer.Reviews.Detector.{
  compare_edit, detect_found, detect_edit, adopt_or_reopen, settle_review, follow, detect_open,
  detect_by_state, detect_item, detect_items, review_tick, updated_comment, pull_request_of,
  get_retriggered_queue,
}
use rabbit_maximizer.Reviews.Kept.{
  IsKept, KeepsM, KeepsT, bind-KeepsM, transact-KeepsT, bind-KeepsT, catch-KeepsT, answer-KeepsT,
  if-KeepsT, record_review-KeepsM, upsert-KeepsM,
}

module _ (s : Setting) (P : Db → Type 0) (k : IsKept s P) where
  note_reviewed-KeepsM :
      (item : ReviewQueue) (url : String) (verdict : CodeRabbitCommentType) (sha : Option String)
      (b : Bool)
      → KeepsM P (note_reviewed s item url verdict sha b)
  unfolding note_reviewed record_event
  note_reviewed-KeepsM item url verdict sha false = λ db q. done _ _ q
  note_reviewed-KeepsM item url verdict sha true = λ db q.
      Holds-bind (record_review s.env.now _ url verdict sha) _ db
        (record_review-KeepsM s P k s.env.now _ url verdict sha db q)
        (λ u db' p. done _ _ (k.elsewhere db' _ (refl, refl, refl, refl) p))

  resolve_reviewed-KeepsM :
      (item : ReviewQueue) (url : String) (verdict : CodeRabbitCommentType) (sha : Option String)
      → KeepsM P (resolve_reviewed s item url verdict sha)
  unfolding resolve_reviewed
  resolve_reviewed-KeepsM item url verdict sha =
      bind-KeepsM P _ (note_reviewed s item url verdict sha) (k.mark_resolved item.id _)
        (note_reviewed-KeepsM item url verdict sha)

  note_fallback-KeepsM : (item : ReviewQueue) (b : Bool) → KeepsM P (note_fallback s item b)
  unfolding note_fallback record_event
  note_fallback-KeepsM item false db q = done _ _ q
  note_fallback-KeepsM item true db q = done _ _ (k.elsewhere db _ (refl, refl, refl, refl) q)

  resolve_via_fallback-KeepsM : (item : ReviewQueue) → KeepsM P (resolve_via_fallback s item)
  unfolding resolve_via_fallback
  resolve_via_fallback-KeepsM item =
      bind-KeepsM P _ (note_fallback s item) (k.mark_resolved item.id _) (note_fallback-KeepsM item)

  compare_edit-KeepsT :
      (item : ReviewQueue) (c : CoderabbitComment) (fresh : FetchedComment)
      → KeepsT P (compare_edit s item c fresh)
  unfolding compare_edit
  compare_edit-KeepsT item c fresh =
      if-KeepsT P (leb fresh.updated_at c.last_seen_at) _ _ (λ w q. q)
        (bind-KeepsT P (transact (upsert s.env.now (updated_comment s item c fresh))) _
          (transact-KeepsT P _ (upsert-KeepsM s P k s.env.now (updated_comment s item c fresh)))
          (λ _ w q. q))

  detect_found-KeepsT :
      (item : ReviewQueue) (c : Option CoderabbitComment) → KeepsT P (detect_found s item c)
  unfolding detect_found
  detect_found-KeepsT item none = λ w q. q
  detect_found-KeepsT item (some c) =
      bind-KeepsT P (answer (s.client.fetch_comment item.repo_full_name item.source_comment_id))
        (compare_edit s item c)
        (answer-KeepsT P (s.client.fetch_comment item.repo_full_name item.source_comment_id))
        (compare_edit-KeepsT item c)

  detect_edit-KeepsT : (item : ReviewQueue) → KeepsT P (detect_edit s item)
  unfolding detect_edit
  detect_edit-KeepsT item w = detect_found-KeepsT item _ w

  adopt_or_reopen-KeepsT :
      (item : ReviewQueue) (pr : Option PullRequest) (run : String)
      → KeepsT P (adopt_or_reopen s item pr run)
  unfolding adopt_or_reopen
  adopt_or_reopen-KeepsT item pr run =
      if-KeepsT P _ (transact (reopen_stale_retriggered s.env item.id _))
        (transact (adopt_run_if_still_retriggered s.env item.id item.source_comment_run_id run))
        (transact-KeepsT P _ (k.reopen item.id _))
        (transact-KeepsT P _ (k.adopt_run item.id item.source_comment_run_id run))

  settle_review-KeepsT :
      (item : ReviewQueue) (pr : Option PullRequest) (since : ℕ) (review : Option CompletedReview)
      → KeepsT P (settle_review s item pr since review)
  unfolding settle_review
  settle_review-KeepsT item pr since (some review) =
      transact-KeepsT P _ (resolve_reviewed-KeepsM item review.html_url _ review.commit_id)
  settle_review-KeepsT item pr since none =
      if-KeepsT P (is_some item.source_comment_run_id) _ _ (λ w q. q)
        (if-KeepsT P _ (transact (resolve_via_fallback s item)) (return false)
          (transact-KeepsT P _ (resolve_via_fallback-KeepsM item)) (λ w q. q))

  follow-KeepsT :
      (item : ReviewQueue) (pr : Option PullRequest) (since : ℕ) (outcome : EditDetectionOutcome)
      → KeepsT P (follow s item pr since outcome)
  unfolding follow
  follow-KeepsT item pr since (edit_resolved url verdict) =
      transact-KeepsT P _ (resolve_reviewed-KeepsM item url verdict none)
  follow-KeepsT item pr since (edit_skipped url) =
      transact-KeepsT P _ (k.mark_resolved item.id skipped)
  follow-KeepsT item pr since (edit_adopted run) = adopt_or_reopen-KeepsT item pr run
  follow-KeepsT item pr since (fallback reason type) =
      bind-KeepsT P (answer _) (settle_review s item pr since) (answer-KeepsT P _)
        (settle_review-KeepsT item pr since)

  detect_by_state-KeepsT :
      (item : ReviewQueue) (pr : Option PullRequest) (at : ℕ) (state : PrState)
      → KeepsT P (detect_by_state s item pr at state)
  unfolding detect_by_state detect_open
  detect_by_state-KeepsT item pr at merged = transact-KeepsT P _ (k.mark_resolved item.id pr_merged)
  detect_by_state-KeepsT item pr at closed =
      transact-KeepsT P _ (k.mark_resolved item.id pr_closed_without_merge)
  detect_by_state-KeepsT item pr at open_pr =
      bind-KeepsT P (detect_edit s item) (follow s item pr _) (detect_edit-KeepsT item)
        (follow-KeepsT item pr _)

  detect_item-KeepsT :
      (item : ReviewQueue) (pr : Option PullRequest) (at : Option ℕ)
      → KeepsT P (detect_item s item pr at)
  unfolding detect_item
  detect_item-KeepsT item pr none = λ w q. q
  detect_item-KeepsT item pr (some at) = detect_by_state-KeepsT item pr at _

  detect_items-KeepsT :
      (prs : List PullRequest) (items : List ReviewQueue) → KeepsT P (detect_items s prs items)
  unfolding detect_items
  detect_items-KeepsT prs [] = λ w q. q
  detect_items-KeepsT prs (item ∷ items) =
      bind-KeepsT P
        (catch (detect_item s item (pull_request_of prs item) item.retriggered_at)
          (λ _. return false))
        (λ _. detect_items s prs items)
        (catch-KeepsT P false (detect_item s item (pull_request_of prs item) item.retriggered_at)
          (detect_item-KeepsT item (pull_request_of prs item) item.retriggered_at))
        (λ _. detect_items-KeepsT prs items)

  pub review_tick-KeepsT : KeepsT P (review_tick s)
  unfolding review_tick
  review_tick-KeepsT w q = detect_items-KeepsT w.db.pull_request (get_retriggered_queue w.db) w q
