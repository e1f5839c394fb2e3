-- ===== src/Queue/Enqueue/Conflicts.antt =====
-- The conflict that `handleEnqueueConflict` does not resolve: the comment belongs to a row whose
-- resolution is not among REOPENABLE_RESOLUTIONS.
use rabbit_maximizer.Prelude.{
  ℕ, ◌≡◌, ◌∙◌, ap, refl, subst, true, false, none, List, [], ◌∷◌, ◌++◌, Memᴰ, count, clash_free,
  arith, any-append_last,
}
use rabbit_maximizer.Domain.{same_comment}
use rabbit_maximizer.Schema.{ReviewQueue, Db, clash, unique_ok}
use rabbit_maximizer.Store.{
  Env, Result, ok, err, M, ◌>>=◌, catch, Error, commit, create, with_prisma_error_handling,
  typed_error, unique_constraint_violation,
}
use rabbit_maximizer.Queue.Requests.{EnqueueData, is_retriggered_for, is_reopenable_from}
use rabbit_maximizer.Queue.Enqueue.{
  enqueue, cooldown_guard, recent_resolved_guard, adopt_or_create, guarded, create_queue_row,
  handle_enqueue_conflict, existing_pending, reopen_existing, new_row,
}
use rabbit_maximizer.Queue.Enqueue.Guards.{find_first-none, pending_for}

clash-append :
    (rows : List ReviewQueue) (s : ReviewQueue) {r : ReviewQueue}
    → Memᴰ r rows
    → clash r s ≡ true
    → clash_free clash (rows ++ s ∷ []) ≡ false
clash-append [] s m h = elim m [ ]
clash-append (x ∷ xs) s (Memᴰ.head e) h =
    ground (arith, any-append_last (clash x) xs s (subst (λ z. clash z s ≡ true) e h))
clash-append (x ∷ xs) s (Memᴰ.tail m) h = ground (arith, clash-append xs s m h)

catch-bind_err :
    {A B : Type 0} (m : M A) (f : A → M B) (handle : Error → M B) (db : Db) (e : Error)
    → m db ≡ err e
    → catch (m >>= f) handle db ≡ handle e db
catch-bind_err {A} {B} m f handle db e q = ap caught q
  where
    caught : Result (A × Db) → Result (B × Db)
    caught r = elim (elim r as (λ _. Result (B × Db)) [ err x ↦ err x | ok (a, db') ↦ f a db' ]) [
      | err x ↦ handle x db
      | ok s ↦ ok s
    ]

create-clash :
    (row : ℕ → ReviewQueue) (db : Db)
    → unique_ok (db.review_queue ++ row db.next_id ∷ []) ≡ false
    → with_prisma_error_handling (create row) db ≡ err unique_constraint_violation
unfolding with_prisma_error_handling create commit typed_error
create-clash row db h = rw (h, with_prisma_error_handling, create, commit) refl

module _ (env : Env) (lookback_sec : ℕ) (d : EnqueueData) (db : Db) where
  new_row-clashes :
      (r : ReviewQueue)
      → Memᴰ r db.review_queue
      → same_comment r.source_comment_id d.source_comment_id ≡ true
      → unique_ok (db.review_queue ++ new_row env lookback_sec d db.next_id ∷ []) ≡ false
  unfolding unique_ok
  new_row-clashes r m e = clash-append db.review_queue _ m (ground (arith, e))

  -- Where no row of the pull request is retriggered or pending, neither guard finds a row, and
  -- the comment has a row but none that may be reopened, the enqueue fails with the violation
  -- of the unique constraint.
  pub enqueue-conflict :
      (r : ReviewQueue)
      → count (is_retriggered_for d) db.review_queue ≡ 0
      → cooldown_guard env lookback_sec d db.review_queue ≡ none
      → recent_resolved_guard env lookback_sec d db.review_queue ≡ none
      → count (pending_for env lookback_sec d db) db.review_queue ≡ 0
      → count (is_reopenable_from d) db.review_queue ≡ 0
      → Memᴰ r db.review_queue
      → same_comment r.source_comment_id d.source_comment_id ≡ true
      → enqueue env lookback_sec d db ≡ err unique_constraint_violation
  unfolding enqueue adopt_or_create guarded create_queue_row handle_enqueue_conflict
      existing_pending reopen_existing
  enqueue-conflict r z c g p o m e =
      rw
        (
          find_first-none env lookback_sec d db (is_retriggered_for d) z,
          adopt_or_create,
          c,
          g,
          guarded,
        )
        (catch-bind_err (with_prisma_error_handling (create (new_row env lookback_sec d))) _
            (handle_enqueue_conflict env lookback_sec d) db _
            (create-clash (new_row env lookback_sec d) db (new_row-clashes r m e))
          ∙ rw
              (
                find_first-none env lookback_sec d db (pending_for env lookback_sec d db) p,
                existing_pending,
                find_first-none env lookback_sec d db (is_reopenable_from d) o,
                reopen_existing,
              )
              refl)
