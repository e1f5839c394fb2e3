-- ===== src/Queue/Enqueue/Decision.antt =====
-- The deduplication table of docs/business-rules.md as the code has it: a row that is reopened keeps
-- its attempts, where the document resets them.
use rabbit_maximizer.Prelude.{
  ℕ, ◌*◌, ◌≡◌, true, false, not, Bool, Option, none, some, find, ◌==◌, List, [], ◌∷◌, ◌++◌, Memᴰ, ◌&&◌, count,
}
use rabbit_maximizer.Domain.{is_pending, same_comment, is_review_skipped, skipped}
use rabbit_maximizer.Schema.{ReviewQueue, PullRequest, Db, for_pr, unique_ok}
use rabbit_maximizer.Store.{Env, change, has_id}
use rabbit_maximizer.Queue.Marks.{resolve_row, reopen_row, still_retriggered}
use rabbit_maximizer.Queue.Requests.{
  EnqueueData, EnqueueResult, existing, newly_pending, newer_than, should_reopen_stale_retriggered,
  reopen_options, is_retriggered_for, is_reopenable_from, is_new_run,
}
use rabbit_maximizer.Queue.Enqueue.{
  adopt_run_row, replace_comment_row, new_row, cooldown_guard, recent_resolved_guard,
}

module _ (env : Env) (lookback_sec : ℕ) (d : EnqueueData) (db : Db) where
  -- A retriggered row of the pull request.
  abbrev pub IsFound : ReviewQueue → Type 0
  IsFound r = Memᴰ r db.review_queue × (is_retriggered_for d r ≡ true)

  -- The head that is known for the pull request is unreviewed, and the trigger of the row is stale.
  abbrev pub is_stale_for : ReviewQueue → Option PullRequest → Bool
  is_stale_for r none = false
  is_stale_for r (some p) =
      should_reopen_stale_retriggered r.retriggered_at p.head_sha p.reviewed_head_sha
        (lookback_sec * 1000) env.now

  -- The reopening of a stale retriggered row applies.
  abbrev pub is_stale_skip : ReviewQueue → Bool
  is_stale_skip r =
      is_review_skipped d.source_comment_type
      && is_stale_for r (find (λ p. p.id == d.pull_request_id) db.pull_request)

  -- Why an enqueue changes nothing and hands back the row `r`.
  pub data Reason (r : ReviewQueue) : Type 0 where
    same_run :
        IsFound r
        → same_comment r.source_comment_id d.source_comment_id ≡ true
        → is_stale_skip r ≡ false
        → is_new_run d.coderabbit_run_id r.source_comment_run_id ≡ false
        → Reason r
    unedited_beside :
        (x : ReviewQueue)
        → IsFound r
        → is_reopenable_from d x ≡ true
        → newer_than d.comment_updated_at x.resolved_at ≡ false
        → Reason r
    cooling : cooldown_guard env lookback_sec d db.review_queue ≡ some r → Reason r
    recently_resolved :
        cooldown_guard env lookback_sec d db.review_queue ≡ none
        → recent_resolved_guard env lookback_sec d db.review_queue ≡ some r
        → Reason r
    already_pending : for_pr d.repo d.pr r ≡ true → is_pending r.status ≡ true → Reason r
    unedited :
        is_reopenable_from d r ≡ true
        → newer_than d.comment_updated_at r.resolved_at ≡ false
        → Reason r

  -- No row of the pull request is retriggered, and neither guard finds a row.
  abbrev pub IsUnguarded : Type 0
  IsUnguarded =
      (count (is_retriggered_for d) db.review_queue ≡ 0)
      × (cooldown_guard env lookback_sec d db.review_queue ≡ none)
      × (recent_resolved_guard env lookback_sec d db.review_queue ≡ none)

  -- The rows of the table after one decision; `created` tells whether the row became pending.
  pub data Decision (result : EnqueueResult) (db' : Db) : Type 0 where
    no_op : (r : ReviewQueue) → Reason r → result ≡ existing r → db' ≡ db → Decision result db'
    run_adopted :
        (r : ReviewQueue)
        → IsFound r
        → same_comment r.source_comment_id d.source_comment_id ≡ true
        → is_stale_skip r ≡ false
        → is_new_run d.coderabbit_run_id r.source_comment_run_id ≡ true
        → result.created ≡ false
        → db'.review_queue
          ≡ change
              (still_retriggered r.id)
              (λ s. record (adopt_run_row env lookback_sec d s) { updated_at = env.now })
              db.review_queue
        → Decision result db'
    comment_replaced :
        (r : ReviewQueue)
        → IsFound r
        → same_comment r.source_comment_id d.source_comment_id ≡ false
        → count (λ x. is_reopenable_from d x && not (has_id r.id x)) db.review_queue ≡ 0
        → result.created ≡ false
        → db'.review_queue
          ≡ change
              (still_retriggered r.id)
              (λ s. record (replace_comment_row env lookback_sec d s) { updated_at = env.now })
              db.review_queue
        → Decision result db'
    stale_retriggered_reopened :
        (r : ReviewQueue)
        → IsFound r
        → same_comment r.source_comment_id d.source_comment_id ≡ true
        → is_stale_skip r ≡ true
        → result.created ≡ true
        → db'.review_queue
          ≡ change (still_retriggered r.id) (reopen_row env.now (reopen_options d)) db.review_queue
        → Decision result db'
    resolved_reopened :
        (x : ReviewQueue)
        → Memᴰ x db.review_queue
        → is_reopenable_from d x ≡ true
        → newer_than d.comment_updated_at x.resolved_at ≡ true
        → IsUnguarded
        → result.created ≡ true
        → db'.review_queue
          ≡ change (has_id x.id) (reopen_row env.now (reopen_options d)) db.review_queue
        → Decision result db'
    retriggered_resolved :
        (r x : ReviewQueue)
        → IsFound r
        → Memᴰ x db.review_queue
        → is_reopenable_from d x ≡ true
        → newer_than d.comment_updated_at x.resolved_at ≡ true
        → result.created ≡ true
        → db'.review_queue
          ≡ change
              (still_retriggered r.id)
              (resolve_row env.now skipped)
              (change (has_id x.id) (reopen_row env.now (reopen_options d)) db.review_queue)
        → Decision result db'
    row_created :
        IsUnguarded
        → unique_ok (db.review_queue ++ new_row env lookback_sec d db.next_id ∷ []) ≡ true
        → result ≡ newly_pending (new_row env lookback_sec d db.next_id)
        → db'.review_queue ≡ db.review_queue ++ new_row env lookback_sec d db.next_id ∷ []
        → Decision result db'
