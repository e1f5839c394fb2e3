-- ===== src/Scheduler/Trigger.antt =====
-- ReviewTrigger (src/ReviewTrigger.ts): whether an item is retriggered, and what is recorded then.
use rabbit_maximizer.Prelude.{
  ℕ, ◌+◌, ◌*◌, String, Bool, not, Option, none, some, [], ◌∷◌, ◌++◌, ◌&&◌, str_eq, if◌then◌else◌,
}
use rabbit_maximizer.Domain.{is_pending, is_review_skipped}
use rabbit_maximizer.Schema.{ReviewQueue}
use rabbit_maximizer.Store.{ok, github}
use rabbit_maximizer.Queue.Marks.{CommentDetails}
use rabbit_maximizer.Scheduler.Recording.{record_retrigger}
use rabbit_maximizer.Service.{
  classify_coderabbit_comment, Response, answered, refused, FetchedComment, LatestComment, Setting,
  T, ◌>>=◌, ◌>>◌, return, throw, transact, is_terminal_http_status, answer,
}

pub data TriggerError : Type 0 where
  retrigger_item_not_pending retrigger_stale_comment_skip : TriggerError
  retrigger_stale_comment_replacement_deleted : TriggerError
  stale_comment_rescheduled :
      (source_comment : CommentDetails) (original_url : String) (reschedule_earliest : ℕ)
      → TriggerError

pub data RabbitResult : Type 0 where
  triggered : (retriggered_comment_url : String) → RabbitResult
  rejected : TriggerError → RabbitResult

abbrev pub url_or : String → Option String → String
url_or url none = url
url_or url (some original) = original

abbrev pub seconds_or : ℕ → Option ℕ → ℕ
seconds_or fallback none = fallback
seconds_or fallback (some s) = s

module _ (s : Setting) where
  open s use {env, client, text, cfg, run_id}

  abbrev pub noted : ReviewQueue → T (Unit {0})
  noted item w = (
    ok tt,
    record w { posts = w.posts ++ record { repo = item.repo_full_name; pr = item.pr_number } ∷ [] },
  )

  unfoldable pub record_posted : ReviewQueue → Option String → Response String → T RabbitResult
  record_posted item source_run_id (refused status) = throw (github status)
  record_posted item source_run_id (answered url) = do
    noted item
    transact (record_retrigger s item url source_run_id)
    return (triggered url)

  unfoldable pub post_and_record : ReviewQueue → Option String → Option String → T RabbitResult
  unfolding record_posted
  post_and_record item reply_to source_run_id =
      record_posted item source_run_id
        (client.post_retrigger item.repo_full_name item.pr_number reply_to)

  -- The body of the source comment; a deleted comment reads as the empty text.
  abbrev pub stored_body : Response FetchedComment → T String
  stored_body (answered comment) = return comment.body
  stored_body (refused status) =
      if is_terminal_http_status status then return "" else throw (github status)

  unfoldable pub reschedule_to :
      ReviewQueue → LatestComment → Response FetchedComment → T RabbitResult
  reschedule_to item latest (refused status) =
      if is_terminal_http_status status
      then return (rejected retrigger_stale_comment_replacement_deleted)
      else throw (github status)
  reschedule_to item latest (answered comment) =
      let wait_seconds =
        seconds_or cfg.fallback_wait_seconds (text.parse_wait_seconds comment.body)
        + cfg.buffer_seconds in
      return (
        rejected (
          stale_comment_rescheduled
            (record {
              comment_id = latest.comment_id;
              comment_url = latest.url;
              coderabbit_run_id = text.extract_coderabbit_run_id comment.body;
            })
            (url_or item.source_comment_url item.original_source_comment_url)
            (latest.updated_at + wait_seconds * 1000)))

  unfoldable pub replace_or_skip : ReviewQueue → String → Option LatestComment → T RabbitResult
  unfolding post_and_record reschedule_to
  replace_or_skip item body none =
      if str_eq body ""
      then post_and_record item none (text.extract_coderabbit_run_id body)
      else return (rejected retrigger_stale_comment_skip)
  replace_or_skip item body (some latest) =
      reschedule_to item latest (client.fetch_comment item.repo_full_name latest.comment_id)

  -- The comment still asks for a retrigger, and is not one that was answered already.
  abbrev pub asks_for_review : String → Bool
  asks_for_review body =
      not (str_eq body "")
      && text.has_rate_limit_marker body
      && not (text.has_own_retrigger_marker body)

  abbrev pub is_skipped_review : String → Bool
  is_skipped_review body =
      not (str_eq body "")
      && is_review_skipped (some (classify_coderabbit_comment text body))
      && not (text.has_own_retrigger_marker body)

  unfoldable pub trigger_from : ReviewQueue → String → T RabbitResult
  unfolding post_and_record replace_or_skip
  trigger_from item body =
      if asks_for_review body
      then post_and_record item (some item.source_comment_url) (text.extract_coderabbit_run_id body)
      else if is_skipped_review body
      then post_and_record item (some item.source_comment_url) (text.extract_coderabbit_run_id body)
      else (answer (client.find_latest_review_limit_comment item.repo_full_name item.pr_number)
          >>= replace_or_skip item body)

  unfoldable pub trigger : ReviewQueue → T RabbitResult
  unfolding trigger_from
  trigger item =
      if is_pending item.status
      then (stored_body (client.fetch_comment item.repo_full_name item.source_comment_id)
          >>= trigger_from item)
      else return (rejected retrigger_item_not_pending)
