-- ===== src/Queue/Enqueue/Elsewhere.antt =====
-- An enqueue leaves alone the tables that are not of the queue.
use rabbit_maximizer.Prelude.{
  ℕ, ◌≡◌, ◌==◌, Bool, true, false, Option, none, some, find, any, Bool-cases, inl, inr,
  if◌then◌else◌,
}
use rabbit_maximizer.Domain.{same_comment, is_review_skipped}
use rabbit_maximizer.Schema.{ReviewQueue, PullRequest, Db}
use rabbit_maximizer.Store.{
  Env, M, Error, unique_constraint_violation, return, ◌>>=◌, with_prisma_error_handling, catch,
  create, create_order, update, update_many, record_event, orders_item,
}
use rabbit_maximizer.Queue.Rules.{
  Holds, failed, done, Holds-bind, Holds-typed, Holds-catch, Holds-update_many, Holds-update,
  Holds-create, Holds-create_order,
}
use rabbit_maximizer.Queue.Marks.{
  ensure_order, reopen_stale_retriggered, ReopenStaleRetriggeredOptions,
}
use rabbit_maximizer.Queue.Requests.{
  EnqueueData, EnqueueResult, newly_pending, is_retriggered_for, newer_than, is_new_run,
  reopen_options,
}
use rabbit_maximizer.Queue.Enqueue.{
  enqueued, reopen_resolved, reopen_in_place, resolve_conflicting, adopt_other_comment, adopt_found,
  adopt_or_create, guarded, enqueue, new_row, create_queue_row, handle_enqueue_conflict,
  existing_pending, reopen_existing, replace_comment, adopt_same_comment, same_comment_unless,
  adopt_new_run, try_reopen_stale_retriggered, reopen_unreviewed, stale_reopened,
}

-- The tables that are not of the queue are the same.
abbrev pub IsElsewhere : Db → Db → Type 0
IsElsewhere db db' =
    (db'.pull_request ≡ db.pull_request)
    × (db'.next_pr_id ≡ db.next_pr_id)
    × (db'.system_state ≡ db.system_state)
    × (db'.coderabbit_comment ≡ db.coderabbit_comment)

module _ (db0 : Db) where
  abbrev pub Leaves : {A : Type 0} → M A → Type 0
  Leaves m = (db : Db) → IsElsewhere db0 db → Holds (λ _. IsElsewhere db0) (m db)

  pub bind-Leaves :
      {A B : Type 0} (m : M A) (f : A → M B)
      → Leaves m
      → ((a : A) → Leaves (f a))
      → Leaves (m >>= f)
  bind-Leaves m f h k db q = Holds-bind m f db (h db q) (λ a db' p. k a db' p)

  return-Leaves : {A : Type 0} (a : A) → Leaves (return a)
  return-Leaves a db q = done _ _ q

  if-Leaves :
      {A : Type 0} (b : Bool) (m k : M A) → Leaves m → Leaves k → Leaves (if b then m else k)
  if-Leaves true m k h l = h
  if-Leaves false m k h l = l

  catch-Leaves :
      {A : Type 0} (m : M A) (handle : Error → M A)
      → Leaves m
      → ((e : Error) → Leaves (handle e))
      → Leaves (catch m handle)
  catch-Leaves m handle h k db q = Holds-catch m handle db (h db q) (λ e _. k e db q)

  ensure_order-Leaves : (now id : ℕ) → Leaves (ensure_order now id)
  unfolding ensure_order
  ensure_order-Leaves now id db q = elim (Bool-cases (any (orders_item id) db.queue_order)) [
    | inl e ↦ rw e (done _ _ q)
    | inr e ↦ rw e (done _ _ q)
  ]

  pub reopen_stale_retriggered-Leaves :
      (env : Env) (id : ℕ) (opts : ReopenStaleRetriggeredOptions)
      → Leaves (reopen_stale_retriggered env id opts)
  unfolding reopen_stale_retriggered
  reopen_stale_retriggered-Leaves env id opts =
      bind-Leaves (update_many _ _) _ (λ db q. Holds-update_many _ _ db (λ _. q))
        (λ n db q. elim (Bool-cases (n == 0)) [
          | inl e ↦ rw e (done _ _ q)
          | inr e ↦ rw e (
              bind-Leaves (ensure_order env.now id) _ (ensure_order-Leaves env.now id)
                (λ _. return-Leaves true) db q)
        ])

  module _ (env : Env) (lookback_sec : ℕ) (d : EnqueueData) where
    open env use {now, find_first}

    enqueued-Leaves : Leaves (enqueued env lookback_sec d)
    unfolding enqueued record_event
    enqueued-Leaves db q = done _ _ q

    reopen_resolved-Leaves : (r : ReviewQueue) → Leaves (reopen_resolved env lookback_sec d r)
    unfolding reopen_resolved
    reopen_resolved-Leaves r =
        bind-Leaves (update _ _) _ (λ db q. Holds-update _ _ db (λ _ _ _. q))
          (λ x.
            bind-Leaves (ensure_order now r.id) _ (ensure_order-Leaves now r.id)
              (λ _. return-Leaves x))

    replace_comment-Leaves : (r : ReviewQueue) → Leaves (replace_comment env lookback_sec d r)
    unfolding replace_comment
    replace_comment-Leaves r =
        bind-Leaves (update_many _ _) _ (λ db q. Holds-update_many _ _ db (λ _. q))
          (λ n. return-Leaves _)

    reopen_in_place-Leaves : (r x : ReviewQueue) → Leaves (reopen_in_place env lookback_sec d r x)
    unfolding reopen_in_place
    reopen_in_place-Leaves r x =
        bind-Leaves (reopen_resolved env lookback_sec d x) _ (reopen_resolved-Leaves x) (λ u.
          bind-Leaves (update_many _ _) _ (λ db q. Holds-update_many _ _ db (λ _. q))
            (λ n.
              bind-Leaves (enqueued env lookback_sec d) _ enqueued-Leaves
                (λ _. return-Leaves (newly_pending u))))

    resolve_conflicting-Leaves :
        (r : ReviewQueue) (x : Option ReviewQueue)
        → Leaves (resolve_conflicting env lookback_sec d r x)
    unfolding resolve_conflicting
    resolve_conflicting-Leaves r none = replace_comment-Leaves r
    resolve_conflicting-Leaves r (some x) =
        if-Leaves (newer_than d.comment_updated_at x.resolved_at) _ _ (reopen_in_place-Leaves r x)
          (return-Leaves _)

    stale_reopened-Leaves :
        (r : ReviewQueue) (b : Bool) → Leaves (stale_reopened env lookback_sec d r b)
    unfolding stale_reopened
    stale_reopened-Leaves r true = return-Leaves _
    stale_reopened-Leaves r false = return-Leaves none

    reopen_unreviewed-Leaves :
        (r : ReviewQueue) (p : Option PullRequest)
        → Leaves (reopen_unreviewed env lookback_sec d r p)
    unfolding reopen_unreviewed
    reopen_unreviewed-Leaves r none = return-Leaves none
    reopen_unreviewed-Leaves r (some p) =
        if-Leaves _ _ _
          (bind-Leaves (reopen_stale_retriggered env r.id (reopen_options d)) _
            (reopen_stale_retriggered-Leaves env r.id (reopen_options d)) (stale_reopened-Leaves r))
          (return-Leaves none)

    try_reopen-Leaves :
        (r : ReviewQueue) → Leaves (try_reopen_stale_retriggered env lookback_sec d r)
    unfolding try_reopen_stale_retriggered
    try_reopen-Leaves r db q = elim (Bool-cases (is_review_skipped d.source_comment_type)) [
      | inl e ↦
          rw e (
            reopen_unreviewed-Leaves r (find (λ p. p.id == d.pull_request_id) db.pull_request) db q)
      | inr e ↦ rw e (done _ _ q)
    ]

    same_comment_unless-Leaves :
        (r : ReviewQueue) (x : Option EnqueueResult)
        → Leaves (same_comment_unless env lookback_sec d r x)
    unfolding same_comment_unless adopt_new_run
    same_comment_unless-Leaves r (some x) = return-Leaves x
    same_comment_unless-Leaves r none =
        if-Leaves (is_new_run d.coderabbit_run_id r.source_comment_run_id) _ _
          (bind-Leaves (update_many _ _) _ (λ db q. Holds-update_many _ _ db (λ _. q))
            (λ n. return-Leaves _))
          (return-Leaves _)

    adopt_same_comment-Leaves : (r : ReviewQueue) → Leaves (adopt_same_comment env lookback_sec d r)
    unfolding adopt_same_comment
    adopt_same_comment-Leaves r =
        bind-Leaves (try_reopen_stale_retriggered env lookback_sec d r) _ (try_reopen-Leaves r)
          (same_comment_unless-Leaves r)

    adopt_found-Leaves : (r : ReviewQueue) → Leaves (adopt_found env lookback_sec d r)
    unfolding adopt_found adopt_other_comment
    adopt_found-Leaves r =
        if-Leaves (same_comment r.source_comment_id d.source_comment_id) _ _
          (adopt_same_comment-Leaves r) (λ db q. resolve_conflicting-Leaves r _ db q)

    reopen_existing-Leaves :
        (e : Error) (x : Option ReviewQueue) → Leaves (reopen_existing env lookback_sec d e x)
    unfolding reopen_existing
    reopen_existing-Leaves e none db q = failed _
    reopen_existing-Leaves e (some x) db q =
        if-Leaves (newer_than d.comment_updated_at x.resolved_at) _ _
          (bind-Leaves (reopen_resolved env lookback_sec d x) _ (reopen_resolved-Leaves x) (λ u.
            bind-Leaves (enqueued env lookback_sec d) _ enqueued-Leaves
              (λ _. return-Leaves (newly_pending u))))
          (return-Leaves _) db q

    existing_pending-Leaves :
        (e : Error) (x : Option ReviewQueue) → Leaves (existing_pending env lookback_sec d e x)
    unfolding existing_pending
    existing_pending-Leaves e (some x) db q = done _ _ q
    existing_pending-Leaves e none db q = reopen_existing-Leaves e _ db q

    conflict-Leaves : (e : Error) → Leaves (handle_enqueue_conflict env lookback_sec d e)
    unfolding handle_enqueue_conflict
    conflict-Leaves unique_constraint_violation db q = existing_pending-Leaves _ _ db q
    conflict-Leaves _ db q = failed _

    create_queue_row-Leaves : Leaves (create_queue_row env lookback_sec d)
    unfolding create_queue_row
    create_queue_row-Leaves =
        catch-Leaves _ (handle_enqueue_conflict env lookback_sec d)
          (bind-Leaves (with_prisma_error_handling (create (new_row env lookback_sec d))) _
            (λ db q. Holds-typed _ db (Holds-create _ db (λ _. q)))
            (λ r.
              bind-Leaves (create_order now r.id none) _
                (λ db q. Holds-create_order {P = λ _. IsElsewhere db0} now r.id none db (λ _. q))
                (λ _.
                  bind-Leaves (enqueued env lookback_sec d) _ enqueued-Leaves
                    (λ _. return-Leaves (newly_pending r)))))
          conflict-Leaves

    guarded-Leaves : (x y : Option ReviewQueue) → Leaves (guarded env lookback_sec d x y)
    unfolding guarded
    guarded-Leaves (some x) y = return-Leaves _
    guarded-Leaves none (some y) = return-Leaves _
    guarded-Leaves none none = create_queue_row-Leaves

    pub enqueue-Leaves : Leaves (enqueue env lookback_sec d)
    unfolding enqueue
    enqueue-Leaves db q = adopted (find_first.apply (is_retriggered_for d) db.review_queue)
      where
        adopted :
            (x : Option ReviewQueue)
            → Holds (λ _. IsElsewhere db0) (adopt_or_create env lookback_sec d x db)
        adopted (some r) = adopt_found-Leaves r db q
        adopted none = guarded-Leaves _ _ db q
