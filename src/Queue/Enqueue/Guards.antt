-- ===== src/Queue/Enqueue/Guards.antt =====
-- What `enqueue` leaves alone: rows of other pull requests, resolved rows that the comment is not
-- newer than, and the whole table where a guard finds a row.
use rabbit_maximizer.Prelude.{
  ℕ, ◌<◌, ◌⊎◌, eq_iff, ◌≡◌, refl, sym, ap, subst, ◌∙◌, Bool, true, false, none, some, List, [], ◌∷◌,
  ◌++◌, Memᴰ, ◌&&◌, All-Memᴰ, count, count-Memᴰ, Option-cases, inl, inr, arith,
}
use rabbit_maximizer.Domain.{is_resolved, is_pending, skipped}
use rabbit_maximizer.Schema.{ReviewQueue, Db, for_pr, unique_ok}
use rabbit_maximizer.Store.{Env, Result, ok, change, has_id}
use rabbit_maximizer.Queue.Rules.{Holds, failed, done}
use rabbit_maximizer.Queue.WellFormed.{All-same_id}
use rabbit_maximizer.Queue.Marks.{still_retriggered, reopen_row, resolve_row}
use rabbit_maximizer.Queue.Requests.{
  EnqueueData, EnqueueResult, existing, newer_than, is_retriggered_for, is_reopenable_from,
  reopen_options,
}
use rabbit_maximizer.Queue.Enqueue.{
  enqueue, cooldown_guard, recent_resolved_guard, adopt_run_row, replace_comment_row, new_row,
  adopt_or_create, guarded,
}
use rabbit_maximizer.Queue.Enqueue.Conflicting.{SamePr}
use rabbit_maximizer.Queue.Enqueue.Decides.{enqueue-Decision}
use rabbit_maximizer.Queue.Enqueue.Decision.{
  Decision, no_op, run_adopted, comment_replaced, stale_retriggered_reopened, resolved_reopened,
  retriggered_resolved, row_created,
}

pub change-Memᴰ :
    (p : ReviewQueue → Bool) (f : ReviewQueue → ReviewQueue) (rows : List ReviewQueue)
    {r : ReviewQueue}
    → Memᴰ r rows
    → p r ≡ false
    → Memᴰ r (change p f rows)
change-Memᴰ p f [] m h = elim m [ ]
change-Memᴰ p f (x ∷ xs) {r} (Memᴰ.head e) h =
    let q : p x ≡ false = subst (λ z. p z ≡ false) e h in Memᴰ.head (e ∙ sym (rw q refl))
change-Memᴰ p f (x ∷ xs) (Memᴰ.tail m) h = Memᴰ.tail (change-Memᴰ p f xs m h)

change-hit :
    (p : ReviewQueue → Bool) (f : ReviewQueue → ReviewQueue) (rows : List ReviewQueue)
    {r : ReviewQueue}
    → Memᴰ r rows
    → p r ≡ true
    → Memᴰ (f r) (change p f rows)
change-hit p f [] m h = elim m [ ]
change-hit p f (x ∷ xs) {r} (Memᴰ.head e) h =
    let q : p x ≡ true = subst (λ z. p z ≡ true) e h in Memᴰ.head (ap f e ∙ sym (rw q refl))
change-hit p f (x ∷ xs) (Memᴰ.tail m) h = Memᴰ.tail (change-hit p f xs m h)

append-Memᴰ :
    (rows : List ReviewQueue) (s : ReviewQueue) {r : ReviewQueue}
    → Memᴰ r rows
    → Memᴰ r (rows ++ s ∷ [])
append-Memᴰ [] s m = elim m [ ]
append-Memᴰ (x ∷ xs) s (Memᴰ.head e) = Memᴰ.head e
append-Memᴰ (x ∷ xs) s (Memᴰ.tail m) = Memᴰ.tail (append-Memᴰ xs s m)

append_one-Memᴰ : (rows : List ReviewQueue) (s : ReviewQueue) → Memᴰ s (rows ++ s ∷ [])
append_one-Memᴰ [] s = Memᴰ.head refl
append_one-Memᴰ (x ∷ xs) s = Memᴰ.tail (append_one-Memᴰ xs s)

Holds-map :
    {A : Type 0} {P Q : A → Db → Type 0} (r : Result (A × Db))
    → ((a : A) (db : Db) → P a db → Q a db)
    → Holds P r
    → Holds Q r
Holds-map r h (failed e) = failed e
Holds-map r h (done a db k) = done a db (h a db k)

module _ (env : Env) (lookback_sec : ℕ) (d : EnqueueData) (db : Db) where
  -- A row that every changed row differs from in id is kept.
  Decision-keeps :
      (r : ReviewQueue) (result : EnqueueResult) (db' : Db)
      → Memᴰ r db.review_queue
      → ((s : ReviewQueue)
          → Memᴰ s db.review_queue
          → is_retriggered_for d s ≡ true
          → still_retriggered s.id r ≡ false)
      → ((s : ReviewQueue)
          → Memᴰ s db.review_queue
          → is_reopenable_from d s ≡ true
          → newer_than d.comment_updated_at s.resolved_at ≡ true
          → has_id s.id r ≡ false)
      → Decision env lookback_sec d db result db'
      → Memᴰ r db'.review_queue
  Decision-keeps r result db' m a b (no_op s _ _ q) = rw q m
  Decision-keeps r result db' m a b (run_adopted s e _ _ _ _ q) = rw q (
      change-Memᴰ (still_retriggered s.id)
        (λ z. record (adopt_run_row env lookback_sec d z) { updated_at = env.now }) _ m
        (a s e.0 e.1))
  Decision-keeps r result db' m a b (comment_replaced s e _ _ _ q) = rw q (
      change-Memᴰ (still_retriggered s.id)
        (λ z. record (replace_comment_row env lookback_sec d z) { updated_at = env.now }) _ m
        (a s e.0 e.1))
  Decision-keeps r result db' m a b (stale_retriggered_reopened s e _ _ _ q) = rw q (
      change-Memᴰ (still_retriggered s.id) (reopen_row env.now (reopen_options d)) _ m
        (a s e.0 e.1))
  Decision-keeps r result db' m a b (resolved_reopened s i e n _ _ q) =
      rw q (change-Memᴰ (has_id s.id) (reopen_row env.now (reopen_options d)) _ m (b s i e n))
  Decision-keeps r result db' m a b (retriggered_resolved s x e i k n _ q) = rw q (
      change-Memᴰ (still_retriggered s.id) (resolve_row env.now skipped) _
        (change-Memᴰ (has_id x.id) (reopen_row env.now (reopen_options d)) _ m (b x i k n))
        (a s e.0 e.1))
  Decision-keeps r result db' m a b (row_created _ _ _ q) = rw q (append-Memᴰ _ _ m)

  same_id :
      (Q : ReviewQueue → Bool) {r s : ReviewQueue}
      → unique_ok db.review_queue ≡ true
      → Memᴰ r db.review_queue
      → Memᴰ s db.review_queue
      → Q s ≡ true
      → Q r ≡ false
      → has_id s.id r ≡ false
  same_id Q {r = r} {s = s} u m i h k =
      ground (arith, All-Memᴰ _ _ (All-same_id (λ z. Q z ≡ true) db.review_queue u i h) m)

  -- Where the unique indexes hold, a resolved row of the table that the comment is not newer
  -- than is still in the table, unchanged, after an enqueue that succeeds.
  pub enqueue-keeps_resolved :
      (r : ReviewQueue)
      → unique_ok db.review_queue ≡ true
      → Memᴰ r db.review_queue
      → is_resolved r.status ≡ true
      → newer_than d.comment_updated_at r.resolved_at ≡ false
      → Holds (λ _ db'. Memᴰ r db'.review_queue) (enqueue env lookback_sec d db)
  enqueue-keeps_resolved r u m e n =
      Holds-map _
        (λ result db' k.
          Decision-keeps r result db' m (λ s i h. ground (arith, h, e))
            (λ s i h k. same_id (λ z. newer_than d.comment_updated_at z.resolved_at) u m i k n) k)
        (enqueue-Decision env lookback_sec d db)

  -- Where the unique indexes hold and the comment belongs to one pull request, every row of
  -- another pull request is unchanged after an enqueue that succeeds.
  pub enqueue-keeps_others :
      (r : ReviewQueue)
      → unique_ok db.review_queue ≡ true
      → SamePr d db
      → Memᴰ r db.review_queue
      → for_pr d.repo d.pr r ≡ false
      → Holds (λ _ db'. Memᴰ r db'.review_queue) (enqueue env lookback_sec d db)
  enqueue-keeps_others r u t m e =
      Holds-map _
        (λ result db' k.
          Decision-keeps r result db' m
            (λ s i h.
              ground (arith, same_id (λ z. for_pr d.repo d.pr z) u m i (ground (arith, h)) e))
            (λ s i h k.
              same_id (λ z. for_pr d.repo d.pr z) u m i (All-Memᴰ _ _ t i (ground (arith, h))) e)
            k)
        (enqueue-Decision env lookback_sec d db)

  abbrev pub pending_for : ReviewQueue → Bool
  pending_for r = for_pr d.repo d.pr r && is_pending r.status

  Decision-created :
      (result : EnqueueResult) (db' : Db)
      → SamePr d db
      → result.created ≡ true
      → Decision env lookback_sec d db result db'
      → 0 < count pending_for db'.review_queue
  Decision-created result db' t c (no_op s _ q _) = absurd (cc)
  Decision-created result db' t c (run_adopted s e _ _ _ n _) = absurd (cc)
  Decision-created result db' t c (comment_replaced s e _ _ n _) = absurd (cc)
  Decision-created result db' t c (stale_retriggered_reopened s e _ _ _ q) = rw q (
      count-Memᴰ pending_for _
        (change-hit (still_retriggered s.id) (reopen_row env.now (reopen_options d)) _ e.0
          (ground (arith, e.1)))
        (ground (arith, e.1)))
  Decision-created result db' t c (resolved_reopened s i e n _ _ q) = rw q (
      count-Memᴰ pending_for _
        (change-hit (has_id s.id) (reopen_row env.now (reopen_options d)) _ i (ground arith))
        (ground (arith, All-Memᴰ _ _ t i (ground (arith, e)))))
  Decision-created result db' t c (retriggered_resolved s x e i k n _ q) = rw q (
      count-Memᴰ pending_for _
        (change-Memᴰ (still_retriggered s.id) (resolve_row env.now skipped) _
          (change-hit (has_id x.id) (reopen_row env.now (reopen_options d)) _ i (ground arith))
          (ground arith))
        (ground (arith, All-Memᴰ _ _ t i (ground (arith, k)))))
  Decision-created result db' t c (row_created _ _ _ q) = rw q (
      count-Memᴰ pending_for _
        (append_one-Memᴰ db.review_queue (new_row env lookback_sec d db.next_id)) own)
    where
      own : pending_for (new_row env lookback_sec d db.next_id) ≡ true
      own = ground (arith, eq_iff d.repo d.repo)

  -- Where the comment belongs to one pull request and an enqueue answers `created`, the pull
  -- request has a pending row after it.
  pub enqueue-created :
      SamePr d db
      → Holds
          (λ result db'. result.created ≡ true → 0 < count pending_for db'.review_queue)
          (enqueue env lookback_sec d db)
  enqueue-created t =
      Holds-map _ (λ result db' k c. Decision-created result db' t c k)
        (enqueue-Decision env lookback_sec d db)

  pub find_first-none :
      (p : ReviewQueue → Bool)
      → count p db.review_queue ≡ 0
      → env.find_first.apply p db.review_queue ≡ none
  find_first-none p z = elim (Option-cases (env.find_first.apply p db.review_queue)) [
    | inl q ↦ q
    | inr (r, q) ↦
        let k = env.find_first.sound p db.review_queue r q in
        absurd (omega (arith, count-Memᴰ p db.review_queue k.0 k.1, z))
  ]

  -- Where no row of the pull request is retriggered and the cooldown guard finds a row, or
  -- finds none and the guard of the recently resolved finds one, the enqueue succeeds, changes
  -- nothing, and answers with that row and `created` false.
  pub enqueue-guarded :
      (r : ReviewQueue)
      → count (is_retriggered_for d) db.review_queue ≡ 0
      → (cooldown_guard env lookback_sec d db.review_queue ≡ some r)
        ⊎ ((cooldown_guard env lookback_sec d db.review_queue ≡ none)
            × (recent_resolved_guard env lookback_sec d db.review_queue ≡ some r))
      → enqueue env lookback_sec d db ≡ ok (existing r, db)
  unfolding enqueue adopt_or_create guarded
  enqueue-guarded r z (inl c) =
      rw (find_first-none (is_retriggered_for d) z, c, adopt_or_create, guarded) refl
  enqueue-guarded r z (inr (c, g)) =
      rw (find_first-none (is_retriggered_for d) z, c, g, adopt_or_create, guarded) refl
