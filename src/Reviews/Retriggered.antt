-- ===== src/Reviews/Retriggered.antt =====
-- A tick of the review detector leaves alone the rows that are not retriggered.
use rabbit_maximizer.Prelude.{
  ℕ, count, ◌≡◌, sym, subst, String, Bool, true, false, Option, Memᴰ, ◌⊎◌, inl, inr, arith,
}
use rabbit_maximizer.Domain.{Resolution, is_retriggered}
use rabbit_maximizer.Schema.{ReviewQueue, Db}
use rabbit_maximizer.Store.{Result, update_many, change}
use rabbit_maximizer.Queue.Rules.{Holds, failed, done, Holds-bind, Holds-update_many}
use rabbit_maximizer.Queue.Marks.{
  mark_resolved_if_still_retriggered, adopt_run_if_still_retriggered, reopen_stale_retriggered,
  still_retriggered, ReopenStaleRetriggeredOptions, reopen_row, resolve_row,
}
use rabbit_maximizer.Queue.Rows.{reopen_stale_retriggered-rows}
use rabbit_maximizer.Queue.Enqueue.Guards.{change-Memᴰ}
use rabbit_maximizer.Service.{Setting, World}
use rabbit_maximizer.Reviews.Detector.{review_tick}
use rabbit_maximizer.Reviews.Kept.{IsKept, KeepsM}
use rabbit_maximizer.Reviews.Tick.{review_tick-KeepsT}

module _ (s : Setting) (r : ReviewQueue) (idle : is_retriggered r.status ≡ false) where
  -- The row is in the table, as it is.
  abbrev Stays : Db → Type 0
  Stays db = Memᴰ r db.review_queue

  update_many-Stays :
      (p : ReviewQueue → Bool) (f : ReviewQueue → ReviewQueue)
      → p r ≡ false
      → KeepsM Stays (update_many p f)
  update_many-Stays p f h db q = Holds-update_many p f db (λ _. change-Memᴰ p f db.review_queue q h)

  mark_resolved-Stays :
      (id : ℕ) (resolution : Resolution)
      → KeepsM Stays (mark_resolved_if_still_retriggered s.env id resolution)
  unfolding mark_resolved_if_still_retriggered
  mark_resolved-Stays id resolution db q =
      Holds-bind (update_many (still_retriggered id) (resolve_row s.env.now resolution)) _ db
        (update_many-Stays (still_retriggered id) (resolve_row s.env.now resolution)
          (ground (arith, idle)) db q)
        (λ n db' p. done _ _ p)

  adopt_run-Stays :
      (id : ℕ) (expected : Option String) (run : String)
      → KeepsM Stays (adopt_run_if_still_retriggered s.env id expected run)
  unfolding adopt_run_if_still_retriggered
  adopt_run-Stays id expected run db q =
      Holds-bind (update_many _ _) _ db (update_many-Stays _ _ (ground (arith, idle)) db q)
        (λ n db' p. done _ _ p)

  reopen-Stays :
      (id : ℕ) (opts : ReopenStaleRetriggeredOptions)
      → KeepsM Stays (reopen_stale_retriggered s.env id opts)
  reopen-Stays id opts db q = go _ (reopen_stale_retriggered-rows s.env id opts db)
    where
      go :
          (x : Result (Bool × Db))
          → Holds
              (λ b db'.
                (b ≡ false)
                × (count (still_retriggered id) db.review_queue ≡ 0)
                × (db' ≡ db)
                ⊎ ((b ≡ true)
                    × (db'.review_queue
                        ≡ change
                            (still_retriggered id)
                            (reopen_row s.env.now opts)
                            db.review_queue)))
              x
          → Holds (λ _. Stays) x
      go x (failed e) = failed e
      go x (done b db' (inl (_, _, same))) = done b db' (rw same q)
      go x (done b db' (inr (_, rows))) = done b db' (
          rw rows (
            change-Memᴰ (still_retriggered id) (reopen_row s.env.now opts) _ q
              (ground (arith, idle))))

  Stays-IsKept : IsKept s Stays
  Stays-IsKept = record {
    elsewhere = λ db db' same q. subst (Memᴰ r) (sym same.0) q;
    mark_resolved = mark_resolved-Stays;
    adopt_run = adopt_run-Stays;
    reopen = reopen-Stays;
  }

  -- A row of the table that is not retriggered is unchanged by a tick of the review detector,
  -- whatever GitHub answers and wherever the tick fails.
  pub review_tick-Memᴰ :
      (w : World) → Memᴰ r w.db.review_queue → Memᴰ r (review_tick s w).1.db.review_queue
  review_tick-Memᴰ w q = review_tick-KeepsT s Stays Stays-IsKept w q
