-- ===== src/Queue/Enqueue/Outcomes.antt =====
-- The decisions of `enqueue` where a row is created, reopened, replaced, or adopts a run.
use rabbit_maximizer.Prelude.{
  ℕ, suc, ◌≡◌, refl, ap, ◌∙◌, true, false, not, Option, none, some, [], ◌∷◌, ◌++◌, Memᴰ, ◌&&◌,
  count, Bool-cases, Option-cases, inl, inr, arith,
}
use rabbit_maximizer.Domain.{is_pending, same_comment, skipped}
use rabbit_maximizer.Schema.{ReviewQueue, Db, for_pr, unique_ok}
use rabbit_maximizer.Store.{
  Env, ◌>>=◌, ◌>>◌, return, Error, change, has_id, update, update_many, create, create_order,
  with_prisma_error_handling, unique_constraint_violation,
}
use rabbit_maximizer.Queue.Rules.{
  Holds, failed, done, Holds-bind, Holds-typed, Holds-catch, Holds-update, Holds-update_many,
  Holds-create, Holds-create_order,
}
use rabbit_maximizer.Queue.Marks.{resolve_row, reopen_row, still_retriggered, ensure_order}
use rabbit_maximizer.Queue.Rows.{ensure_order-rows}
use rabbit_maximizer.Queue.Requests.{
  EnqueueData, EnqueueResult, newly_pending, newer_than, reopen_options, is_reopenable_from,
  is_new_run,
}
use rabbit_maximizer.Queue.Enqueue.{
  enqueued, adopt_run_row, adopt_new_run, replace_comment_row, replace_comment, reopen_resolved,
  reopen_in_place, resolve_conflicting, adopt_other_comment, new_row, reopen_existing,
  existing_pending, handle_enqueue_conflict, create_queue_row,
}
use rabbit_maximizer.Queue.Enqueue.Decision.{
  IsFound, IsUnguarded, is_stale_skip, Decision, no_op, run_adopted, comment_replaced, resolved_reopened,
  retriggered_resolved, row_created, unedited_beside, already_pending, unedited,
}

module _ (env : Env) (lookback_sec : ℕ) (d : EnqueueData) (db : Db) where
  -- An event more changes no row.
  enqueued-Decision :
      (result : EnqueueResult) (db' : Db)
      → ((db'' : Db)
          → db''.review_queue ≡ db'.review_queue
          → (Decision env lookback_sec d db) result db'')
      → Holds (Decision env lookback_sec d db) ((enqueued env lookback_sec d >> return result) db')
  unfolding enqueued
  enqueued-Decision result db' h = done _ _ (h _ refl)

  -- The reopened row, with the order row that it keeps or gets.
  reopened-rows :
      (x : ReviewQueue)
      → Holds
          (λ u db'.
            db'.review_queue
            ≡ change (has_id x.id) (reopen_row env.now (reopen_options d)) db.review_queue)
          (reopen_resolved env lookback_sec d x db)
  unfolding reopen_resolved
  reopened-rows x =
      Holds-bind
        {P = λ _ db'.
          db'.review_queue
          ≡ change (has_id x.id) (reopen_row env.now (reopen_options d)) db.review_queue}
        (update (has_id x.id) (reopen_row env.now (reopen_options d))) _ db
        (Holds-update _ _ db (λ r _ u. refl))
        λ r db' w.
          Holds-bind (ensure_order env.now x.id) _ db' (ensure_order-rows env.now x.id db')
            (λ _ db'' k. done _ _ (k ∙ w))

  reopen_in_place-Decision :
      (r x : ReviewQueue)
      → (IsFound env lookback_sec d db) r
      → Memᴰ x db.review_queue
      → is_reopenable_from d x ≡ true
      → newer_than d.comment_updated_at x.resolved_at ≡ true
      → Holds (Decision env lookback_sec d db) (reopen_in_place env lookback_sec d r x db)
  unfolding reopen_in_place
  reopen_in_place-Decision r x e m p n =
      Holds-bind (reopen_resolved env lookback_sec d x) _ db (reopened-rows x) λ u db' w.
        Holds-bind
          {P = λ _ db''.
            db''.review_queue
            ≡ change (still_retriggered r.id) (resolve_row env.now skipped) db'.review_queue}
          (update_many (still_retriggered r.id) (resolve_row env.now skipped)) _ db'
          (Holds-update_many _ _ db' (λ _. refl))
          λ _ db'' k. enqueued-Decision (newly_pending u) db'' λ last q.
            retriggered_resolved r x e m p n refl
              (q ∙ k ∙ ap (change (still_retriggered r.id) (resolve_row env.now skipped)) w)

  replace_comment-Decision :
      (r : ReviewQueue)
      → (IsFound env lookback_sec d db) r
      → same_comment r.source_comment_id d.source_comment_id ≡ false
      → count (λ x. is_reopenable_from d x && not (has_id r.id x)) db.review_queue ≡ 0
      → Holds (Decision env lookback_sec d db) (replace_comment env lookback_sec d r db)
  unfolding replace_comment
  replace_comment-Decision r e s z =
      Holds-bind
        {P = λ _ db'.
          db'.review_queue
          ≡ change (still_retriggered r.id)
              (λ t. record (replace_comment_row env lookback_sec d t) { updated_at = env.now })
              db.review_queue}
        (update_many (still_retriggered r.id) _) _ db (Holds-update_many _ _ db (λ _. refl))
        (λ n db' k. done _ _ (comment_replaced r e s z refl k))

  pub adopt_other_comment-Decision :
      (r : ReviewQueue)
      → (IsFound env lookback_sec d db) r
      → same_comment r.source_comment_id d.source_comment_id ≡ false
      → Holds (Decision env lookback_sec d db) (adopt_other_comment env lookback_sec d r db)
  unfolding adopt_other_comment resolve_conflicting
  adopt_other_comment-Decision r e s =
      elim (Option-cases (
        env.find_first.apply (λ x. is_reopenable_from d x && not (has_id r.id x))
          db.review_queue)) [
            | inl q ↦
                rw (q, resolve_conflicting)
                  (replace_comment-Decision r e s (env.find_first.complete _ db.review_queue q))
            | inr (x, q) ↦
                rw (q, resolve_conflicting)
                  (elim (Bool-cases (newer_than d.comment_updated_at x.resolved_at)) [
                    | inr k ↦
                        let (_, p) = env.find_first.sound _ db.review_queue x q in
                        rw k
                          (done _ _ (no_op r (unedited_beside x e (ground (arith, p)) k) refl refl))
                    | inl k ↦
                        let (m, p) = env.find_first.sound _ db.review_queue x q in
                        rw k (reopen_in_place-Decision r x e m (ground (arith, p)) k)
                  ])
          ]

  pub adopt_new_run-Decision :
      (r : ReviewQueue)
      → (IsFound env lookback_sec d db) r
      → same_comment r.source_comment_id d.source_comment_id ≡ true
      → is_stale_skip env lookback_sec d db r ≡ false
      → is_new_run d.coderabbit_run_id r.source_comment_run_id ≡ true
      → Holds (Decision env lookback_sec d db) (adopt_new_run env lookback_sec d r db)
  unfolding adopt_new_run
  adopt_new_run-Decision r e s k n =
      Holds-bind
        {P = λ _ db'.
          db'.review_queue
          ≡ change (still_retriggered r.id)
              (λ t. record (adopt_run_row env lookback_sec d t) { updated_at = env.now })
              db.review_queue}
        (update_many (still_retriggered r.id) _) _ db (Holds-update_many _ _ db (λ _. refl))
        (λ _ db' w. done _ _ (run_adopted r e s k n refl w))

  reopen_existing-Decision :
      (e : Error) (x : Option ReviewQueue)
      → ((r : ReviewQueue) → x ≡ some r → Memᴰ r db.review_queue × (is_reopenable_from d r ≡ true))
      → (IsUnguarded env lookback_sec d db)
      → Holds (Decision env lookback_sec d db) (reopen_existing env lookback_sec d e x db)
  unfolding reopen_existing
  reopen_existing-Decision e none h z = failed _
  reopen_existing-Decision e (some x) h z =
      elim (Bool-cases (newer_than d.comment_updated_at x.resolved_at)) [
        | inr q ↦ rw q (done _ _ (no_op x (unedited (h x refl).1 q) refl refl))
        | inl q ↦ rw q (
            Holds-bind (reopen_resolved env lookback_sec d x) _ db (reopened-rows x) λ u db' w.
              enqueued-Decision (newly_pending u) db'
                λ last k. resolved_reopened x (h x refl).0 (h x refl).1 q z refl (k ∙ w))
      ]

  handle_enqueue_conflict-Decision :
      (e : Error)
      → (IsUnguarded env lookback_sec d db)
      → Holds (Decision env lookback_sec d db) (handle_enqueue_conflict env lookback_sec d e db)
  unfolding handle_enqueue_conflict
  handle_enqueue_conflict-Decision unique_constraint_violation z =
      elim (Option-cases
        (env.find_first.apply (λ r. for_pr d.repo d.pr r && is_pending r.status) db.review_queue)) [
          | inr (r, q) ↦
              let (_, p) = env.find_first.sound _ db.review_queue r q in
              rw (q, existing_pending)
                (done _ _
                  (no_op r (already_pending (ground (arith, p)) (ground (arith, p))) refl refl))
          | inl q ↦
              rw (q, existing_pending)
                (reopen_existing-Decision unique_constraint_violation _
                  (λ r found. env.find_first.sound _ db.review_queue r found) z)
        ]
  handle_enqueue_conflict-Decision _ z = failed _

  create_order-Decision :
      (IsUnguarded env lookback_sec d db)
      → unique_ok (db.review_queue ++ new_row env lookback_sec d db.next_id ∷ []) ≡ true
      → Holds (Decision env lookback_sec d db) (
          (create_order env.now db.next_id none
              >> (enqueued env lookback_sec d
                  >> return (newly_pending (new_row env lookback_sec d db.next_id))))
            (record db {
              review_queue = db.review_queue ++ new_row env lookback_sec d db.next_id ∷ [];
              next_id = suc db.next_id;
            }))
  create_order-Decision z u =
      Holds-bind (create_order env.now db.next_id none) _ _
        (Holds-create_order env.now db.next_id none _ λ _.
          enqueued-Decision (newly_pending (new_row env lookback_sec d db.next_id)) _
            (λ last q. row_created z u refl q))
        (λ _ db' k. k)

  pub create_queue_row-Decision :
      (IsUnguarded env lookback_sec d db)
      → Holds (Decision env lookback_sec d db) (create_queue_row env lookback_sec d db)
  unfolding create_queue_row
  create_queue_row-Decision z =
      Holds-catch
        (do
          row ← with_prisma_error_handling (create (new_row env lookback_sec d))
          create_order env.now row.id none
          enqueued env lookback_sec d
          return (newly_pending row))
        (handle_enqueue_conflict env lookback_sec d) db
        (Holds-bind (with_prisma_error_handling (create (new_row env lookback_sec d))) _ db
          (Holds-typed (create (new_row env lookback_sec d)) db
            (Holds-create (new_row env lookback_sec d) db (λ u. create_order-Decision z u)))
          (λ row db' k. k))
        (λ e _. handle_enqueue_conflict-Decision e z)
