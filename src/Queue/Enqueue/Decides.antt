-- ===== src/Queue/Enqueue/Decides.antt =====
-- `enqueue` decides by the deduplication table.
use rabbit_maximizer.Prelude.{
  ℕ, ◌*◌, ◌≡◌, refl, subst, ◌⊎◌, Bool, true, false, Option, none, some, count, count-Memᴰ, find, ◌==◌, arith, Bool-cases,
  Option-cases, inl, inr,
}
use rabbit_maximizer.Domain.{same_comment, is_review_skipped}
use rabbit_maximizer.Schema.{ReviewQueue, PullRequest, Db}
use rabbit_maximizer.Store.{Env, ◌>>=◌, change}
use rabbit_maximizer.Queue.Rules.{Holds, done, Holds-bind}
use rabbit_maximizer.Queue.Marks.{reopen_row, still_retriggered, reopen_stale_retriggered}
use rabbit_maximizer.Queue.Rows.{reopen_stale_retriggered-rows}
use rabbit_maximizer.Queue.Requests.{
  EnqueueData, EnqueueResult, should_reopen_stale_retriggered, reopen_options, is_retriggered_for,
  is_new_run,
}
use rabbit_maximizer.Queue.Enqueue.{
  stale_reopened, reopen_unreviewed, try_reopen_stale_retriggered, same_comment_unless,
  adopt_same_comment, adopt_found, guarded, adopt_or_create, enqueue, cooldown_guard,
  recent_resolved_guard,
}
use rabbit_maximizer.Queue.Enqueue.Decision.{
  IsFound, is_stale_for, is_stale_skip, Decision, no_op, stale_retriggered_reopened, same_run, cooling, recently_resolved,
}
use rabbit_maximizer.Queue.Enqueue.Outcomes.{
  adopt_new_run-Decision, adopt_other_comment-Decision, create_queue_row-Decision,
}

module _ (env : Env) (lookback_sec : ℕ) (d : EnqueueData) (db : Db) where
  same_comment_unless-Decision :
      (r : ReviewQueue) (reopened : Option EnqueueResult) (db' : Db)
      → (IsFound env lookback_sec d db) r
      → same_comment r.source_comment_id d.source_comment_id ≡ true
      → (reopened ≡ none) × (db' ≡ db) × (is_stale_skip env lookback_sec d db r ≡ false)
        ⊎ ((result : EnqueueResult) × (reopened ≡ some result)
            × (Decision env lookback_sec d db) result db')
      → Holds
          (Decision env lookback_sec d db)
          (same_comment_unless env lookback_sec d r reopened db')
  unfolding same_comment_unless
  same_comment_unless-Decision r (some x) db' e s (inl (q, _, _)) = absurd (cc)
  same_comment_unless-Decision r (some x) db' e s (inr (y, q, k)) =
      let e : y ≡ x = cc in done _ _ (subst (λ o. (Decision env lookback_sec d db) o db') e k)
  same_comment_unless-Decision r none db' e s (inr (y, q, k)) = absurd (cc)
  same_comment_unless-Decision r none db' e s (inl (q, same, t)) =
      rw same (elim (Bool-cases (is_new_run d.coderabbit_run_id r.source_comment_run_id)) [
        | inr n ↦ rw n (done _ _ (no_op r (same_run e s t n) refl refl))
        | inl n ↦ rw n (adopt_new_run-Decision env lookback_sec d db r e s t n)
      ])

  abbrev Reopening : ReviewQueue → Option EnqueueResult → Db → Type 0
  Reopening r o db' =
      (o ≡ none) × (db' ≡ db) × (is_stale_skip env lookback_sec d db r ≡ false)
      ⊎ ((result : EnqueueResult) × (o ≡ some result) × (Decision env lookback_sec d db) result db')

  -- The row that was found is there to be reopened.
  found-count :
      (r : ReviewQueue)
      → (IsFound env lookback_sec d db) r
      → count (still_retriggered r.id) db.review_queue ≡ 0
      → ⊥
  found-count r e z =
      let f = e.1 in
      let q : still_retriggered r.id r ≡ true = ground (arith, f) in
      ground (arith, z, count-Memᴰ (still_retriggered r.id) db.review_queue e.0 q)

  stale_reopened-Decision :
      (r : ReviewQueue)
      → (IsFound env lookback_sec d db) r
      → same_comment r.source_comment_id d.source_comment_id ≡ true
      → is_stale_skip env lookback_sec d db r ≡ true
      → Holds (Reopening r)
        ((reopen_stale_retriggered env r.id (reopen_options d) >>= stale_reopened env lookback_sec d r)
          db)
  unfolding stale_reopened
  stale_reopened-Decision r e s t =
      Holds-bind (reopen_stale_retriggered env r.id (reopen_options d)) _ db
        (reopen_stale_retriggered-rows env r.id (reopen_options d) db) reopened
    where
      reopened :
          (b : Bool) (db' : Db)
          → ((b ≡ false)
              × (count (still_retriggered r.id) db.review_queue ≡ 0)
              × (db' ≡ db))
            ⊎ ((b ≡ true)
                × (db'.review_queue
                    ≡ change
                        (still_retriggered r.id)
                        (reopen_row env.now (reopen_options d))
                        db.review_queue))
          → Holds (Reopening r) (stale_reopened env lookback_sec d r b db')
      reopened false db' (inl (_, z, _)) = absurd (found-count r e z)
      reopened false db' (inr (q, _)) = absurd (cc)
      reopened true db' (inl (q, _, _)) = absurd (cc)
      reopened true db' (inr (_, q)) =
          done _ _ (inr (_, refl, stale_retriggered_reopened r e s t refl q))

  reopen_unreviewed-Decision :
      (r : ReviewQueue) (p : Option PullRequest)
      → (IsFound env lookback_sec d db) r
      → same_comment r.source_comment_id d.source_comment_id ≡ true
      → is_review_skipped d.source_comment_type ≡ true
      → find (λ p. p.id == d.pull_request_id) db.pull_request ≡ p
      → Holds (Reopening r) (reopen_unreviewed env lookback_sec d r p db)
  unfolding reopen_unreviewed
  reopen_unreviewed-Decision r none e s t f =
      done _ _ (inl (refl, refl, rw (t, f) refl))
  reopen_unreviewed-Decision r (some p) e s t f =
      elim (Bool-cases (is_stale_for env lookback_sec d db r (some p))) [
        | inr n ↦ rw n (done _ _ (inl (refl, refl, rw (t, f, n) refl)))
        | inl n ↦ rw n (stale_reopened-Decision r e s (rw (t, f, n) refl))
      ]

  try_reopen-Decision :
      (r : ReviewQueue)
      → (IsFound env lookback_sec d db) r
      → same_comment r.source_comment_id d.source_comment_id ≡ true
      → Holds (Reopening r) (try_reopen_stale_retriggered env lookback_sec d r db)
  unfolding try_reopen_stale_retriggered
  try_reopen-Decision r e s = elim (Bool-cases (is_review_skipped d.source_comment_type)) [
    | inr t ↦ rw t (done _ _ (inl (refl, refl, rw t refl)))
    | inl t ↦ rw t (reopen_unreviewed-Decision r _ e s t refl)
  ]

  adopt_found-Decision :
      (r : ReviewQueue)
      → (IsFound env lookback_sec d db) r
      → Holds (Decision env lookback_sec d db) (adopt_found env lookback_sec d r db)
  unfolding adopt_found adopt_same_comment
  adopt_found-Decision r e =
      elim (Bool-cases (same_comment r.source_comment_id d.source_comment_id)) [
        | inr s ↦ rw s (adopt_other_comment-Decision env lookback_sec d db r e s)
        | inl s ↦ rw s (
            Holds-bind (try_reopen_stale_retriggered env lookback_sec d r) _ db
              (try_reopen-Decision r e s) (λ o db' k. same_comment_unless-Decision r o db' e s k))
      ]

  guarded-Decision :
      (c g : Option ReviewQueue)
      → cooldown_guard env lookback_sec d db.review_queue ≡ c
      → recent_resolved_guard env lookback_sec d db.review_queue ≡ g
      → count (is_retriggered_for d) db.review_queue ≡ 0
      → Holds (Decision env lookback_sec d db) (guarded env lookback_sec d c g db)
  unfolding guarded
  guarded-Decision (some r) g p q z = done _ _ (no_op r (cooling p) refl refl)
  guarded-Decision none (some r) p q z = done _ _ (no_op r (recently_resolved p q) refl refl)
  guarded-Decision none none p q z = create_queue_row-Decision env lookback_sec d db (z, p, q)

  pub enqueue-Decision : Holds (Decision env lookback_sec d db) (enqueue env lookback_sec d db)
  unfolding enqueue
  enqueue-Decision =
      elim (Option-cases (env.find_first.apply (is_retriggered_for d) db.review_queue)) [
        | inr (r, q) ↦
            rw (q, adopt_or_create)
              (adopt_found-Decision r (env.find_first.sound _ db.review_queue r q))
        | inl q ↦
            rw (q, adopt_or_create)
              (guarded-Decision _ _ refl refl (env.find_first.complete _ db.review_queue q))
      ]
