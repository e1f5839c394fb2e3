-- ===== src/Queue/Enqueue/Adopts.antt =====
-- An enqueue that adopts its comment on the retriggered row keeps the tables well formed.
use rabbit_maximizer.Prelude.{
  ℕ, ◌*◌, refl, Bool, true, false, Option, none, some, Bool-cases, inl, inr,
}
use rabbit_maximizer.Domain.{is_review_skipped}
use rabbit_maximizer.Schema.{ReviewQueue, PullRequest, Db}
use rabbit_maximizer.Store.{Env, update_many}
use rabbit_maximizer.Queue.Rules.{Holds, done, Holds-bind}
use rabbit_maximizer.Queue.WellFormed.{WellFormed}
use rabbit_maximizer.Queue.Requests.{
  EnqueueData, EnqueueResult, reopen_options, should_reopen_stale_retriggered, is_new_run,
}
use rabbit_maximizer.Queue.Enqueue.{
  replace_comment, adopt_new_run, reopen_unreviewed, stale_reopened, try_reopen_stale_retriggered,
  same_comment_unless, adopt_same_comment,
}
use rabbit_maximizer.Queue.Marks.{reopen_stale_retriggered}
use rabbit_maximizer.Queue.Keeps.{Anything, All-Anything, IsMinor-IsQuiet, update_many-WellFormed}
use rabbit_maximizer.Queue.Reopen.{reopen_stale_retriggered-WellFormed}

module _ (env : Env) (lookback_sec : ℕ) (d : EnqueueData) where
  pub replace_comment-WellFormed :
      (recent : ReviewQueue) (db : Db)
      → WellFormed db
      → Holds (λ _. WellFormed) (replace_comment env lookback_sec d recent db)
  unfolding replace_comment
  replace_comment-WellFormed recent db v =
      Holds-bind (update_many _ _) _ db
        (update_many-WellFormed Anything _ _ db (IsMinor-IsQuiet none _ _ (λ r. refl))
          (All-Anything _) v)
        (λ n db' w. done _ _ w)

  adopt_new_run-WellFormed :
      (recent : ReviewQueue) (db : Db)
      → WellFormed db
      → Holds (λ _. WellFormed) (adopt_new_run env lookback_sec d recent db)
  unfolding adopt_new_run
  adopt_new_run-WellFormed recent db v =
      Holds-bind (update_many _ _) _ db
        (update_many-WellFormed Anything _ _ db (IsMinor-IsQuiet none _ _ (λ r. refl))
          (All-Anything _) v)
        (λ n db' w. done _ _ w)

  reopen_unreviewed-WellFormed :
      (recent : ReviewQueue) (pull_request : Option PullRequest) (db : Db)
      → WellFormed db
      → Holds (λ _. WellFormed) (reopen_unreviewed env lookback_sec d recent pull_request db)
  unfolding reopen_unreviewed
  reopen_unreviewed-WellFormed recent none db v = done _ _ v
  reopen_unreviewed-WellFormed recent (some p) db v =
      elim (Bool-cases (
        should_reopen_stale_retriggered recent.retriggered_at p.head_sha p.reviewed_head_sha
          (lookback_sec * 1000) env.now)) [
            | inr e ↦ rw e (done _ _ v)
            | inl e ↦ rw e (
                Holds-bind (reopen_stale_retriggered env recent.id (reopen_options d)) _ db
                  (reopen_stale_retriggered-WellFormed env recent.id (reopen_options d) db v)
                  reopened)
          ]
    where
      reopened :
          (b : Bool) (db' : Db)
          → WellFormed db'
          → Holds (λ _. WellFormed) (stale_reopened env lookback_sec d recent b db')
      reopened false db' w = done _ _ w
      reopened true db' w = done _ _ w

  try_reopen_stale_retriggered-WellFormed :
      (recent : ReviewQueue) (db : Db)
      → WellFormed db
      → Holds (λ _. WellFormed) (try_reopen_stale_retriggered env lookback_sec d recent db)
  unfolding try_reopen_stale_retriggered
  try_reopen_stale_retriggered-WellFormed recent db v =
      elim (Bool-cases (is_review_skipped d.source_comment_type)) [
        | inr e ↦ rw e (done _ _ v)
        | inl e ↦ rw e (reopen_unreviewed-WellFormed recent _ db v)
      ]

  same_comment_unless-WellFormed :
      (recent : ReviewQueue) (reopened : Option EnqueueResult) (db : Db)
      → WellFormed db
      → Holds (λ _. WellFormed) (same_comment_unless env lookback_sec d recent reopened db)
  unfolding same_comment_unless
  same_comment_unless-WellFormed recent (some r) db v = done _ _ v
  same_comment_unless-WellFormed recent none db v =
      elim (Bool-cases (is_new_run d.coderabbit_run_id recent.source_comment_run_id)) [
        | inr e ↦ rw e (done _ _ v)
        | inl e ↦ rw e (adopt_new_run-WellFormed recent db v)
      ]

  pub adopt_same_comment-WellFormed :
      (recent : ReviewQueue) (db : Db)
      → WellFormed db
      → Holds (λ _. WellFormed) (adopt_same_comment env lookback_sec d recent db)
  unfolding adopt_same_comment
  adopt_same_comment-WellFormed recent db v =
      Holds-bind (try_reopen_stale_retriggered env lookback_sec d recent) _ db
        (try_reopen_stale_retriggered-WellFormed recent db v)
        (λ r db' w. same_comment_unless-WellFormed recent r db' w)
