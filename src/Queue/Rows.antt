-- ===== src/Queue/Rows.antt =====
-- The rows after an order row is ensured and after a stale row is reopened.
use rabbit_maximizer.Prelude.{
  ℕ, ◌≡◌, refl, sym, ap, ◌∙◌, Bool, true, false, List, [], ◌∷◌, ◌==◌, any, count, Bool-cases, inl,
  inr, ◌⊎◌, arith, ==_iff,
}
use rabbit_maximizer.Schema.{ReviewQueue, Db}
use rabbit_maximizer.Store.{Env, change, orders_item, update_many, create_order}
use rabbit_maximizer.Queue.Rules.{Holds, done, Holds-bind, Holds-update_many}
use rabbit_maximizer.Queue.Marks.{
  reopen_row, ReopenStaleRetriggeredOptions, ensure_order, still_retriggered,
  reopen_stale_retriggered,
}

-- An order row more changes no row of the queue.
pub ensure_order-rows :
    (now item : ℕ) (db : Db)
    → Holds (λ _ db'. db'.review_queue ≡ db.review_queue) (ensure_order now item db)
unfolding ensure_order create_order
ensure_order-rows now item db = elim (Bool-cases (any (orders_item item) db.queue_order)) [
  | inl e ↦ rw e (done _ _ refl)
  | inr e ↦ rw e (done _ _ refl)
]

change-none :
    (p : ReviewQueue → Bool) (f : ReviewQueue → ReviewQueue) (rows : List ReviewQueue)
    → count p rows ≡ 0
    → change p f rows ≡ rows
change-none p f [] h = refl
change-none p f (r ∷ rows) h = ground (arith, change-none p f rows)

-- Either no row was left to reopen, or the retriggered row is pending.
pub reopen_stale_retriggered-rows :
    (env : Env) (id : ℕ) (opts : ReopenStaleRetriggeredOptions) (db : Db)
    → Holds
        (λ reopened db'.
          ((reopened ≡ false)
            × (count (still_retriggered id) db.review_queue ≡ 0)
            × (db' ≡ db))
          ⊎ ((reopened ≡ true)
              × (db'.review_queue
                  ≡ change (still_retriggered id) (reopen_row env.now opts) db.review_queue)))
        (reopen_stale_retriggered env id opts db)
unfolding reopen_stale_retriggered
reopen_stale_retriggered-rows env id opts db =
    Holds-bind
      {P = λ n db'.
        (n ≡ count (still_retriggered id) db.review_queue)
        × (db' ≡ record db {
          review_queue = change (still_retriggered id) (reopen_row env.now opts) db.review_queue;
        })}
      (update_many (still_retriggered id) (reopen_row env.now opts)) _ db
      (Holds-update_many _ _ db (λ _. (refl, refl)))
      λ n db' w. elim (Bool-cases (n == 0)) [
        | inl e ↦
            let z = sym w.0 ∙ (==_iff n 0).0 e in rw e (done _ _ (inl (refl, z, w.1 ∙ same z)))
        | inr e ↦ rw e (
            Holds-bind (ensure_order env.now id) _ db' (ensure_order-rows env.now id db')
              (λ _ db'' k. done _ _ (inr (refl, k ∙ ap (λ x. x.review_queue) w.1))))
      ]
  where
    same :
        count (still_retriggered id) db.review_queue ≡ 0
        → record db {
          review_queue = change (still_retriggered id) (reopen_row env.now opts) db.review_queue;
        }
          ≡ db
    same z =
        ap (λ rows. record db { review_queue = rows })
          (change-none (still_retriggered id) (reopen_row env.now opts) db.review_queue z)
