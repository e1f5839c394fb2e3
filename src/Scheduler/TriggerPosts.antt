-- ===== src/Scheduler/TriggerPosts.antt =====
-- A trigger posts one retrigger at most.
use rabbit_maximizer.Prelude.{
  ℕ, String, Bool, true, false, Option, none, some, [], ◌∷◌, if◌then◌else◌, str_eq, length-append,
  arith,
}
use rabbit_maximizer.Domain.{is_pending}
use rabbit_maximizer.Schema.{ReviewQueue}
use rabbit_maximizer.Service.{
  Setting, T, ◌>>◌, return, transact, Response, answered, refused, FetchedComment, LatestComment,
  answer, is_terminal_http_status,
}
use rabbit_maximizer.Scheduler.Recording.{record_retrigger}
use rabbit_maximizer.Scheduler.Trigger.{
  triggered, rejected, retrigger_stale_comment_skip, noted, record_posted, post_and_record,
  stored_body, reschedule_to, replace_or_skip, asks_for_review, is_skipped_review, trigger_from,
  trigger,
}
use rabbit_maximizer.Scheduler.Posts.{Posts, Posts-transact, Posts-answer, Posts-bind}

-- A choice between two runs.
pub Posts-if :
    {A : Type 0} (n : ℕ) (b : Bool) (m k : T A)
    → Posts n m
    → Posts n k
    → Posts n (if b then m else k)
Posts-if n true m k h l = h
Posts-if n false m k h l = l

Posts-more : {A : Type 0} (m : T A) → Posts 0 m → Posts 1 m
Posts-more m h w = omega (arith, h w)

module _ (s : Setting) where
  record_posted-Posts :
      (item : ReviewQueue) (run : Option String) (r : Response String)
      → Posts 1 (record_posted s item run r)
  unfolding record_posted
  record_posted-Posts item run (refused status) = λ w. omega arith
  record_posted-Posts item run (answered url) =
      Posts-bind 1 0 (noted s item)
        (λ _. transact (record_retrigger s item url run) >> return (triggered url))
        (λ w. omega (
          arith,
          length-append w.posts (record { repo = item.repo_full_name; pr = item.pr_number } ∷ []),
        ))
        (λ _.
          Posts-bind 0 0 (transact (record_retrigger s item url run)) (λ _. return (triggered url))
            (Posts-transact (record_retrigger s item url run)) (λ _ w. omega arith))

  post_and_record-Posts :
      (item : ReviewQueue) (reply run : Option String) → Posts 1 (post_and_record s item reply run)
  unfolding post_and_record
  post_and_record-Posts item reply run = record_posted-Posts item run _

  reschedule_to-Posts :
      (item : ReviewQueue) (latest : LatestComment) (r : Response FetchedComment)
      → Posts 0 (reschedule_to s item latest r)
  unfolding reschedule_to
  reschedule_to-Posts item latest (answered c) = λ w. omega arith
  reschedule_to-Posts item latest (refused status) =
      Posts-if 0 (is_terminal_http_status status) _ _ (λ w. omega arith) (λ w. omega arith)

  replace_or_skip-Posts :
      (item : ReviewQueue) (body : String) (latest : Option LatestComment)
      → Posts 1 (replace_or_skip s item body latest)
  unfolding replace_or_skip
  replace_or_skip-Posts item body none =
      Posts-if 1 (str_eq body "") _ (return (rejected retrigger_stale_comment_skip))
        (post_and_record-Posts item none _) (λ w. omega arith)
  replace_or_skip-Posts item body (some latest) =
      Posts-more
        (reschedule_to s item latest (s.client.fetch_comment item.repo_full_name latest.comment_id))
        (reschedule_to-Posts item latest
          (s.client.fetch_comment item.repo_full_name latest.comment_id))

  stored_body-Posts : (r : Response FetchedComment) → Posts 0 (stored_body s r)
  stored_body-Posts (answered c) = λ w. omega arith
  stored_body-Posts (refused status) =
      Posts-if 0 (is_terminal_http_status status) _ _ (λ w. omega arith) (λ w. omega arith)

  trigger_from-Posts : (item : ReviewQueue) (body : String) → Posts 1 (trigger_from s item body)
  unfolding trigger_from
  trigger_from-Posts item body =
      Posts-if 1 (asks_for_review s body) _ _ (post_and_record-Posts item _ _) (
        Posts-if 1 (is_skipped_review s body) _ _ (post_and_record-Posts item _ _) (
          Posts-bind 0 1 (answer _) (replace_or_skip s item body) (Posts-answer _)
            (replace_or_skip-Posts item body)))

  pub trigger-Posts : (item : ReviewQueue) → Posts 1 (trigger s item)
  unfolding trigger
  trigger-Posts item =
      Posts-if 1 (is_pending item.status) _ _
        (Posts-bind 0 1
          (stored_body s (s.client.fetch_comment item.repo_full_name item.source_comment_id))
          (trigger_from s item)
          (stored_body-Posts (s.client.fetch_comment item.repo_full_name item.source_comment_id))
          (trigger_from-Posts item))
        (λ w. omega arith)
