-- ===== src/Queue/Enqueue/Keeps.antt =====
-- `enqueue` keeps the queue tables well-formed: a pull request never gets a second active row.
use rabbit_maximizer.Prelude.{
  ℕ, ◌≡◌, refl, sym, subst, true, not, Option, none, some, Memᴰ, ◌&&◌, All, All-map, All-Memᴰ,
  count, count_mono, count-split, count-Memᴰ, Bool-cases, Option-cases, inl, inr, arith,
}
use rabbit_maximizer.Domain.{is_retriggered, same_comment, skipped}
use rabbit_maximizer.Schema.{ReviewQueue, Db, for_pr}
use rabbit_maximizer.Store.{Env, change, has_id, update_many}
use rabbit_maximizer.Queue.Rules.{Holds, done, Holds-bind, Holds-update_many}
use rabbit_maximizer.Queue.WellFormed.{
  active_for, IsSound, WellFormed, IsQuiet, change-IsSound, All-same_id,
}
use rabbit_maximizer.Queue.Requests.{
  EnqueueData, reopen_options, newer_than, is_retriggered_for, newly_pending, is_reopenable_from,
}
use rabbit_maximizer.Queue.Enqueue.{
  reopen_resolved, resolve_conflicting, reopen_in_place, adopt_other_comment, adopt_found,
  adopt_or_create, guarded, enqueue,
}
use rabbit_maximizer.Queue.Marks.{resolve_row, reopen_row, still_retriggered}
use rabbit_maximizer.Queue.Enqueue.Adopts.{
  replace_comment-WellFormed, adopt_same_comment-WellFormed,
}
use rabbit_maximizer.Queue.Enqueue.Inserts.{create_queue_row-WellFormed}
use rabbit_maximizer.Queue.Enqueue.Conflicting.{
  enqueued-IsSound, reopen_resolved-IsSound, SamePr, IsIdle-of_zero,
}

module _ (env : Env) (lookback_sec : ℕ) (d : EnqueueData) where
  -- The other comment's resolved row is reopened, and the retriggered row resolved in its place.
  replace_by_reopened-WellFormed :
      (recent x : ReviewQueue) (db : Db)
      → Memᴰ recent db.review_queue
      → is_retriggered_for d recent ≡ true
      → Memᴰ x db.review_queue
      → for_pr d.repo d.pr x ≡ true
      → not (has_id recent.id x) ≡ true
      → WellFormed db
      → Holds (λ _. WellFormed) (reopen_in_place env lookback_sec d recent x db)
  unfolding reopen_in_place
  replace_by_reopened-WellFormed recent x db m e mx ex ne v =
      Holds-bind (reopen_resolved env lookback_sec d x) _ db
        (reopen_resolved-IsSound env lookback_sec d (some recent.id) x db mx
          (IsIdle-of_zero (some recent.id) d x db.review_queue ex alone) exempted)
        λ u db' w.
          Holds-bind (update_many (still_retriggered recent.id) (resolve_row env.now skipped)) _ db'
            (Holds-update_many _ _ db' λ ok'.
              change-IsSound (still_retriggered recent.id) (resolve_row env.now skipped) Still
                (some recent.id) none db' quiet (subst (All Still) (sym w.1) still) ok' w.0)
            (λ _ db'' k. enqueued-IsSound env lookback_sec d none (newly_pending u) db'' k)
    where
      alone : count (active_for (some recent.id) d.repo d.pr) db.review_queue ≡ 0
      alone = omega (
        arith,
        v.active d.repo d.pr,
        count-split (active_for none d.repo d.pr) (has_id recent.id) db.review_queue,
        count-Memᴰ (λ r. has_id recent.id r && active_for none d.repo d.pr r) db.review_queue m
            (ground (arith, e)),
      )

      exempted : IsSound (some recent.id) db
      exempted = record {
        table = v.table;
        active = λ repo pr. omega (
          arith,
          v.active repo pr,
          count_mono (active_for (some recent.id) repo pr) (active_for none repo pr) db.review_queue
              (λ r k. ground arith),
        );
        stamped = v.stamped;
        ordered = v.ordered;
        fresh = v.fresh;
        single = v.single;
      }

      Still : ReviewQueue → Type 0
      Still r = has_id recent.id r ≡ true → is_retriggered r.status ≡ true

      quiet :
          IsQuiet Still
            (some recent.id)
            none
            (still_retriggered recent.id)
            (resolve_row env.now skipped)
      quiet = record {
        same_id = λ r. refl;
        stamps = λ r k q. (refl, refl);
        quiet = λ r k repo pr q. ground (arith, k);
      }

      still :
          All Still (change (has_id x.id) (reopen_row env.now (reopen_options d)) db.review_queue)
      still =
          All-map Still _ db.review_queue (λ r k. ground (arith, k))
            (All-same_id (λ r. is_retriggered r.status ≡ true) db.review_queue v.table m
              (ground (arith, e)))

  adopt_other_comment-WellFormed :
      (recent : ReviewQueue) (db : Db)
      → Memᴰ recent db.review_queue
      → is_retriggered_for d recent ≡ true
      → SamePr d db
      → WellFormed db
      → Holds (λ _. WellFormed) (adopt_other_comment env lookback_sec d recent db)
  unfolding adopt_other_comment resolve_conflicting
  adopt_other_comment-WellFormed recent db m e s v =
      elim (Option-cases (
        env.find_first.apply (λ r. is_reopenable_from d r && not (has_id recent.id r))
          db.review_queue)) [
            | inl q ↦
                rw (q, resolve_conflicting)
                  (replace_comment-WellFormed env lookback_sec d recent db v)
            | inr (x, q) ↦
                rw (q, resolve_conflicting)
                  (elim (Bool-cases (newer_than d.comment_updated_at x.resolved_at)) [
                    | inr k ↦ rw k (done _ _ v)
                    | inl k ↦
                        let (mx, px) = env.find_first.sound _ db.review_queue x q in
                        rw k (
                          replace_by_reopened-WellFormed recent x db m e mx
                            (All-Memᴰ _ db.review_queue s mx (ground (arith, px)))
                            (ground (arith, px)) v)
                  ])
          ]

  adopt_found-WellFormed :
      (recent : ReviewQueue) (db : Db)
      → Memᴰ recent db.review_queue
      → is_retriggered_for d recent ≡ true
      → SamePr d db
      → WellFormed db
      → Holds (λ _. WellFormed) (adopt_found env lookback_sec d recent db)
  unfolding adopt_found
  adopt_found-WellFormed recent db m e s v =
      elim (Bool-cases (same_comment recent.source_comment_id d.source_comment_id)) [
        | inl q ↦ rw q (adopt_same_comment-WellFormed env lookback_sec d recent db v)
        | inr q ↦ rw q (adopt_other_comment-WellFormed recent db m e s v)
      ]

  guarded-WellFormed :
      (cooling recent : Option ReviewQueue) (db : Db)
      → SamePr d db
      → count (is_retriggered_for d) db.review_queue ≡ 0
      → WellFormed db
      → Holds (λ _. WellFormed) (guarded env lookback_sec d cooling recent db)
  unfolding guarded
  guarded-WellFormed (some r) recent db s z v = done _ _ v
  guarded-WellFormed none (some r) db s z v = done _ _ v
  guarded-WellFormed none none db s z v = create_queue_row-WellFormed env lookback_sec d db s z v

  -- An enqueue that succeeds keeps the tables well formed, where the comment belongs to one
  -- pull request.
  pub enqueue-WellFormed :
      (db : Db)
      → SamePr d db
      → WellFormed db
      → Holds (λ _. WellFormed) (enqueue env lookback_sec d db)
  unfolding enqueue
  enqueue-WellFormed db s v =
      elim (Option-cases (env.find_first.apply (is_retriggered_for d) db.review_queue)) [
        | inr (r, q) ↦
            let (m, p) = env.find_first.sound _ db.review_queue r q in
            rw (q, adopt_or_create) (adopt_found-WellFormed r db m p s v)
        | inl q ↦
            rw (q, adopt_or_create)
              (guarded-WellFormed _ _ db s (env.find_first.complete _ db.review_queue q) v)
      ]
