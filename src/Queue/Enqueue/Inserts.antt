-- ===== src/Queue/Enqueue/Inserts.antt =====
-- A row that is created or reopened keeps the queue tables well-formed.
use rabbit_maximizer.Prelude.{
  ℕ, suc, String, ◌≤◌, ◌<◌, ◌≡◌, ap, Bool, true, none, List, [], ◌∷◌, ◌++◌, ◌==◌, ◌&&◌, str_eq,
  eq_iff, if◌then◌else◌, All, All-append_one, count, count-append_one, count-le_add,
  any-append_last, Bool-cases, inl, inr, arith,
}
use rabbit_maximizer.Domain.{is_pending}
use rabbit_maximizer.Schema.{ReviewQueue, QueueOrder, Db, for_pr, unique_ok}
use rabbit_maximizer.Store.{
  Env, ◌>>=◌, ◌>>◌, return, orders_item, order_row, create, create_order,
  with_prisma_error_handling,
}
use rabbit_maximizer.Queue.Rules.{
  Holds, Holds-bind, Holds-typed, Holds-catch, Holds-create, Holds-create_order,
}
use rabbit_maximizer.Queue.WellFormed.{
  active_for, IsStamped, IsOrdered, WellFormed, count-pending-le,
}
use rabbit_maximizer.Queue.Requests.{EnqueueData, is_retriggered_for, newly_pending}
use rabbit_maximizer.Queue.Enqueue.{enqueued, handle_enqueue_conflict, new_row, create_queue_row}
use rabbit_maximizer.Queue.Reopen.{orders_keep, orders_single}
use rabbit_maximizer.Queue.Enqueue.Conflicting.{
  enqueued-IsSound, handle_enqueue_conflict-WellFormed, SamePr, for_pr-eq,
}

module _ (env : Env) (lookback_sec : ℕ) (d : EnqueueData) where
  -- The new row is the one active row of the pull request.
  create-active :
      (db : Db) (repo : String) (pr : ℕ)
      → unique_ok (db.review_queue ++ new_row env lookback_sec d db.next_id ∷ []) ≡ true
      → count (is_retriggered_for d) db.review_queue ≡ 0
      → count (active_for none repo pr) db.review_queue ≤ 1
      → count
          (active_for none repo pr)
          (db.review_queue ++ new_row env lookback_sec d db.next_id ∷ [])
        ≤ 1
  create-active db repo pr u z h = elim (Bool-cases (str_eq d.repo repo && d.pr == pr)) [
    | inr e ↦
        omega
          (arith, h, count-append_one (active_for none repo pr) db.review_queue row, ap weight e)
    | inl e ↦
        let (p, q) = for_pr-eq repo d.repo pr d.pr row e own in
        rw (p, q)
          (omega (
            arith,
            z,
            count-append_one (active_for none d.repo d.pr) db.review_queue row,
            count-append_one (λ r. for_pr d.repo d.pr r && is_pending r.status) db.review_queue row,
            count-pending-le d.repo d.pr (db.review_queue ++ row ∷ []) u,
            count-le_add (active_for none d.repo d.pr) (is_retriggered_for d)
                (λ r. for_pr d.repo d.pr r && is_pending r.status) db.review_queue
                (λ r e. ground arith),
            ap (λ b. weight (b && true)) own,
            ap weight own,
          ))
  ]
    where
      row : ReviewQueue
      row = new_row env lookback_sec d db.next_id

      weight : Bool → ℕ
      weight b = if b then 1 else 0

      own : for_pr d.repo d.pr row ≡ true
      own = ground (arith, eq_iff d.repo d.repo)

  create_order-WellFormed :
      (db : Db)
      → unique_ok (db.review_queue ++ new_row env lookback_sec d db.next_id ∷ []) ≡ true
      → count (is_retriggered_for d) db.review_queue ≡ 0
      → WellFormed db
      → Holds
          (λ _. WellFormed)
          ((create_order env.now db.next_id none
              >> (enqueued env lookback_sec d
                  >> return (newly_pending (new_row env lookback_sec d db.next_id))))
            (record db {
              review_queue = db.review_queue ++ new_row env lookback_sec d db.next_id ∷ [];
              next_id = suc db.next_id;
            }))
  create_order-WellFormed db u z v =
      Holds-bind (create_order env.now db.next_id none) _ _
        (Holds-create_order env.now db.next_id none _ λ e.
          enqueued-IsSound env lookback_sec d none (newly_pending row) _ (record {
            table = u;
            active = λ repo pr. create-active db repo pr u z (v.active repo pr);
            stamped = All-append_one IsStamped db.review_queue row v.stamped (λ k. absurd (cc));
            ordered =
                All-append_one (IsOrdered (db.queue_order ++ order ∷ [])) db.review_queue row
                  (orders_keep order db.queue_order _ v.ordered)
                  (any-append_last (orders_item db.next_id) db.queue_order order (ground arith));
            fresh =
                All-append_one (λ r. r.id < suc db.next_id) db.review_queue row
                  (All-weaken db.review_queue v.fresh) (omega arith);
            single = orders_single order db.queue_order e v.single;
          }))
        (λ _ db' k. k)
    where
      row : ReviewQueue
      row = new_row env lookback_sec d db.next_id

      order : QueueOrder
      order = order_row env.now db.next_id none db.next_order_id

      All-weaken :
          (rows : List ReviewQueue)
          → All (λ r. r.id < db.next_id) rows
          → All (λ r. r.id < suc db.next_id) rows
      All-weaken [] h = tt
      All-weaken (r ∷ rows) h = (omega (arith, h.0), All-weaken rows h.1)

  pub create_queue_row-WellFormed :
      (db : Db)
      → SamePr d db
      → count (is_retriggered_for d) db.review_queue ≡ 0
      → WellFormed db
      → Holds (λ _. WellFormed) (create_queue_row env lookback_sec d db)
  unfolding create_queue_row
  create_queue_row-WellFormed db s z v =
      Holds-catch
        (do
          row ← with_prisma_error_handling (create (new_row env lookback_sec d))
          create_order env.now row.id none
          enqueued env lookback_sec d
          return (newly_pending row))
        (handle_enqueue_conflict env lookback_sec d) db
        (Holds-bind (with_prisma_error_handling (create (new_row env lookback_sec d))) _ db
          (Holds-typed (create (new_row env lookback_sec d)) db
            (Holds-create (new_row env lookback_sec d) db (λ u. create_order-WellFormed db u z v)))
          (λ row db' k. k))
        (λ e _. handle_enqueue_conflict-WellFormed env lookback_sec d e db s z v)
