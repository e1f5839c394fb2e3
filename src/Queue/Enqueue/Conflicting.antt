-- ===== src/Queue/Enqueue/Conflicting.antt =====
-- An enqueue that meets the row of its comment keeps the tables well formed.
use rabbit_maximizer.Prelude.{
  ℕ, String, ◌≡◌, refl, subst, ◌∙◌, true, Option, none, some, List, Memᴰ, ◌&&◌, eq_iff, All,
  All-Memᴰ, count, count-le_add, Bool-cases, Option-cases, inl, inr, arith,
}
use rabbit_maximizer.Domain.{is_pending, same_comment}
use rabbit_maximizer.Schema.{ReviewQueue, Event, Db, for_pr}
use rabbit_maximizer.Store.{
  Env, ◌>>◌, return, Error, change, has_id, update, record_event, unique_constraint_violation,
}
use rabbit_maximizer.Queue.Rules.{Holds, failed, done, Holds-bind, Holds-update}
use rabbit_maximizer.Queue.WellFormed.{active_for, IsSound, WellFormed}
use rabbit_maximizer.Queue.Requests.{
  EnqueueData, EnqueueResult, reopen_options, newer_than, is_retriggered_for, newly_pending,
}
use rabbit_maximizer.Queue.Enqueue.{
  enqueued, reopen_resolved, reopen_existing, handle_enqueue_conflict, existing_pending,
}
use rabbit_maximizer.Queue.Marks.{reopen_row, ensure_order}
use rabbit_maximizer.Queue.Reopen.{IsIdle, reopen-IsSound, ensure_order-IsSound}

-- A comment belongs to one pull request: a row that came from it is a row of the pull request.
abbrev pub SamePr : EnqueueData → Db → Type 0
SamePr d db =
    All
      (λ r.
        same_comment r.source_comment_id d.source_comment_id ≡ true → for_pr d.repo d.pr r ≡ true)
      db.review_queue

pub for_pr-eq :
    (repo repo' : String) (pr pr' : ℕ) (r : ReviewQueue)
    → for_pr repo pr r ≡ true
    → for_pr repo' pr' r ≡ true
    → (repo ≡ repo') × (pr ≡ pr')
for_pr-eq repo repo' pr pr' r h k =
    (ground (arith, eq_iff r.repo_full_name repo, eq_iff r.repo_full_name repo'), ground arith)

pub IsIdle-of_zero :
    (ex : Option ℕ) (d : EnqueueData) (x : ReviewQueue) (rows : List ReviewQueue)
    → for_pr d.repo d.pr x ≡ true
    → count (active_for ex d.repo d.pr) rows ≡ 0
    → IsIdle ex x rows
IsIdle-of_zero ex d x rows h z repo pr k =
    let (e, f) = for_pr-eq d.repo repo d.pr pr x h k in
    subst (λ s. count (active_for ex s pr) rows ≡ 0) e
      (subst (λ n. count (active_for ex d.repo n) rows ≡ 0) f z)

events-IsSound :
    (ex : Option ℕ) (db : Db) (events : List Event)
    → IsSound ex db
    → IsSound ex (record db { events = events })
events-IsSound ex db events v = record {
  table = v.table;
  active = v.active;
  stamped = v.stamped;
  ordered = v.ordered;
  fresh = v.fresh;
  single = v.single;
}

module _ (env : Env) (lookback_sec : ℕ) (d : EnqueueData) where
  pub enqueued-IsSound :
      (ex : Option ℕ) (result : EnqueueResult) (db : Db)
      → IsSound ex db
      → Holds (λ _. IsSound ex) ((enqueued env lookback_sec d >> return result) db)
  unfolding enqueued record_event
  enqueued-IsSound ex result db v = done _ _ (events-IsSound ex db _ v)

  pub reopen_resolved-IsSound :
      (ex : Option ℕ) (x : ReviewQueue) (db : Db)
      → Memᴰ x db.review_queue
      → IsIdle ex x db.review_queue
      → IsSound ex db
      → Holds
          (λ _ db'.
            IsSound ex db'
            × (db'.review_queue
                ≡ change (has_id x.id) (reopen_row env.now (reopen_options d)) db.review_queue))
          (reopen_resolved env lookback_sec d x db)
  unfolding reopen_resolved
  reopen_resolved-IsSound ex x db m idle v =
      Holds-bind
        {P = λ _ db'.
          IsSound ex db'
          × (db'.review_queue
              ≡ change (has_id x.id) (reopen_row env.now (reopen_options d)) db.review_queue)}
        (update (has_id x.id) (reopen_row env.now (reopen_options d))) _ db
        (Holds-update _ _ db
          (λ r _ u. (reopen-IsSound ex env.now (reopen_options d) x db m idle u v, refl)))
        λ r db' w.
          Holds-bind (ensure_order env.now x.id) _ db'
            (ensure_order-IsSound ex env.now x.id db' w.0) (λ _ db'' k. done _ _ (k.0, k.1 ∙ w.1))

  -- Where the pull request has no active row, its resolved row of the comment may be reopened.
  reopen_existing-WellFormed :
      (e : Error) (x : Option ReviewQueue) (db : Db)
      → ((r : ReviewQueue) → x ≡ some r → Memᴰ r db.review_queue × (for_pr d.repo d.pr r ≡ true))
      → count (active_for none d.repo d.pr) db.review_queue ≡ 0
      → WellFormed db
      → Holds (λ _. WellFormed) (reopen_existing env lookback_sec d e x db)
  unfolding reopen_existing
  reopen_existing-WellFormed e none db h z v = failed _
  reopen_existing-WellFormed e (some r) db h z v =
      elim (Bool-cases (newer_than d.comment_updated_at r.resolved_at)) [
        | inr q ↦ rw q (done _ _ v)
        | inl q ↦ rw q (
            Holds-bind (reopen_resolved env lookback_sec d r) _ db
              (reopen_resolved-IsSound none r db (h r refl).0
                (IsIdle-of_zero none d r db.review_queue (h r refl).1 z) v)
              (λ u db' w. enqueued-IsSound none (newly_pending u) db' w.0))
      ]

  idle :
      (db : Db)
      → count (is_retriggered_for d) db.review_queue ≡ 0
      → count (λ r. for_pr d.repo d.pr r && is_pending r.status) db.review_queue ≡ 0
      → count (active_for none d.repo d.pr) db.review_queue ≡ 0
  idle db h k = omega (
    arith,
    h,
    k,
    count-le_add (active_for none d.repo d.pr) (is_retriggered_for d)
        (λ r. for_pr d.repo d.pr r && is_pending r.status) db.review_queue (λ r e. ground arith),
  )

  pub handle_enqueue_conflict-WellFormed :
      (e : Error) (db : Db)
      → SamePr d db
      → count (is_retriggered_for d) db.review_queue ≡ 0
      → WellFormed db
      → Holds (λ _. WellFormed) (handle_enqueue_conflict env lookback_sec d e db)
  unfolding handle_enqueue_conflict
  handle_enqueue_conflict-WellFormed unique_constraint_violation db s z v =
      elim (Option-cases
        (env.find_first.apply (λ r. for_pr d.repo d.pr r && is_pending r.status) db.review_queue)) [
          | inr (r, q) ↦ rw (q, existing_pending) (done _ _ v)
          | inl q ↦
              rw (q, existing_pending)
                (reopen_existing-WellFormed unique_constraint_violation _ db
                  (λ r found.
                    let (m, p) = env.find_first.sound _ db.review_queue r found in
                    (m, All-Memᴰ _ db.review_queue s m (ground arith)))
                  (idle db z (env.find_first.complete _ db.review_queue q)) v)
        ]
  handle_enqueue_conflict-WellFormed _ db s z v = failed _
