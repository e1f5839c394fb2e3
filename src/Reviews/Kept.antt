-- ===== src/Reviews/Kept.antt =====
-- What is kept by statements and transactions, and what a tick of the review detector asks of it.
use rabbit_maximizer.Prelude.{
  refl, Option-cases, ℕ, ◌≡◌, String, Bool, true, false, Option, if◌then◌else◌, any, Bool-cases,
  inl, inr,
}
use rabbit_maximizer.Domain.{CodeRabbitCommentType, Resolution}
use rabbit_maximizer.Schema.{PullRequest, Db}
use rabbit_maximizer.Store.{catch as catch_error, with_prisma_error_handling, M, Result, ok, err}
use rabbit_maximizer.Queue.Rules.{Holds, failed, done, Holds-bind, Holds-typed}
use rabbit_maximizer.Queue.Marks.{
  mark_resolved_if_still_retriggered, adopt_run_if_still_retriggered, reopen_stale_retriggered,
  ReopenStaleRetriggeredOptions,
}
use rabbit_maximizer.PullRequests.{has_pr_id, update_pr, record_review}
use rabbit_maximizer.Comments.{has_pull_request, 
  UpsertCommentData, upsert, upsert_found, update_existing, create_comment, recover_upsert,
  update_winner, find_comment, is_comment,
}
use rabbit_maximizer.Service.{
  Setting, World, T, continue, handled, committed, ◌>>=◌, return, transact, catch, answer, Response,
  answered, refused,
}

-- The tables of the queue and the system state are the same, whatever became of the others.
abbrev pub IsSame : Db → Db → Type 0
IsSame db db' =
    (db'.review_queue ≡ db.review_queue)
    × (db'.queue_order ≡ db.queue_order)
    × (db'.next_id ≡ db.next_id)
    × (db'.system_state ≡ db.system_state)

module _ (P : Db → Type 0) where
  abbrev pub KeepsM : {A : Type 0} → M A → Type 0
  KeepsM m = (db : Db) → P db → Holds (λ _. P) (m db)

  abbrev pub KeepsT : {A : Type 0} → T A → Type 0
  KeepsT m = (w : World) → P w.db → P (m w).1.db

  pub bind-KeepsM :
      {A B : Type 0} (m : M A) (f : A → M B)
      → KeepsM m
      → ((a : A) → KeepsM (f a))
      → (db : Db) → P db
      → Holds (λ _. P) (elim (m db) [ err e ↦ err e | ok (a, db') ↦ f a db' ])
  bind-KeepsM m f h k db q = Holds-bind m f db (h db q) (λ a db' p. k a db' p)

  pub transact-KeepsT : {A : Type 0} (m : M A) → KeepsM m → KeepsT (transact m)
  unfolding transact
  transact-KeepsT {A} m h w q = go (m w.db) (h w.db q)
    where
      go : (x : Result (A × Db)) → Holds (λ _. P) x → P (committed w x).1.db
      go x (failed e) = q
      go x (done a db p) = p

  pub bind-KeepsT :
      {A B : Type 0} (m : T A) (f : A → T B)
      → KeepsT m
      → ((a : A) → KeepsT (f a))
      → KeepsT (m >>= f)
  bind-KeepsT {A} {B} m f h k w q = go (m w) (h w q)
    where
      go : (x : Result A × World) → P x.1.db → P (continue f x).1.db
      go (err e, v) p = p
      go (ok a, v) p = k a v p

  pub catch-KeepsT : {A : Type 0} (a : A) (m : T A) → KeepsT m → KeepsT (catch m (λ _. return a))
  catch-KeepsT {A} a m h w q = go (m w) (h w q)
    where
      go : (x : Result A × World) → P x.1.db → P (handled (λ _. return a) x).1.db
      go (err e, v) p = p
      go (ok b, v) p = p

  pub answer-KeepsT : {A : Type 0} (x : Response A) → KeepsT (answer x)
  answer-KeepsT (answered a) w q = q
  answer-KeepsT (refused status) w q = q

  pub if-KeepsT :
      {A : Type 0} (b : Bool) (m k : T A) → KeepsT m → KeepsT k → KeepsT (if b then m else k)
  if-KeepsT true m k h l = h
  if-KeepsT false m k h l = l

  pub reads-KeepsT :
      {A B : Type 0} (f : Db → A) (m : A → T B)
      → ((a : A) → KeepsT (m a))
      → KeepsT (λ w. m (f w.db) w)
  reads-KeepsT f m h w q = h (f w.db) w q

  -- What is said of the system state alone is kept by a statement on other tables.
  pub same-KeepsM :
      {A : Type 0} (m : M A)
      → ((db db' : Db) → db'.system_state ≡ db.system_state → P db → P db')
      → ((db : Db) → Holds (λ _ db'. IsSame db db') (m db))
      → KeepsM m
  same-KeepsM {A} m k h db q = go (m db) (h db)
    where
      go : (x : Result (A × Db)) → Holds (λ _ db'. IsSame db db') x → Holds (λ _. P) x
      go x (failed e) = failed e
      go x (done a db' same) = done a db' (k db db' same.3 q)

-- What the statements of a tick keep.
pub record IsKept (s : Setting) (P : Db → Type 0) : Type 0 where
  pub elsewhere : (db db' : Db) → IsSame db db' → P db → P db'
  pub mark_resolved :
      (id : ℕ) (resolution : Resolution)
      → KeepsM P (mark_resolved_if_still_retriggered s.env id resolution)
  pub adopt_run :
      (id : ℕ) (expected : Option String) (run : String)
      → KeepsM P (adopt_run_if_still_retriggered s.env id expected run)
  pub reopen :
      (id : ℕ) (opts : ReopenStaleRetriggeredOptions)
      → KeepsM P (reopen_stale_retriggered s.env id opts)

pub upsert-IsSame :
    (now : ℕ) (d : UpsertCommentData) (db : Db) → Holds (λ _ db'. IsSame db db') (upsert now d db)
unfolding upsert upsert_found update_existing create_comment recover_upsert update_winner
    with_prisma_error_handling
upsert-IsSame now d db = elim (Option-cases (find_comment d.comment_id db.coderabbit_comment)) [
  | inl q ↦ elim (Bool-cases (any (is_comment d.comment_id) db.coderabbit_comment)) [
    | inl b ↦
        rw
          (
            q, upsert_found, catch_error, with_prisma_error_handling, create_comment, b,
            recover_upsert, q,
          )
          (failed _)
    | inr b ↦ elim (Bool-cases (has_pull_request db d.pull_request_id)) [
      | inl p ↦
          rw (q, upsert_found, catch_error, with_prisma_error_handling, create_comment, b, p)
            (done _ _ (refl, refl, refl, refl))
      | inr p ↦
          rw (q, upsert_found, catch_error, with_prisma_error_handling, create_comment, b, p)
            (failed _)
    ]
  ]
  | inr (e, q) ↦ rw (q, upsert_found) (done _ _ (refl, refl, refl, refl))
]

module _ (s : Setting) (P : Db → Type 0) (k : IsKept s P) where
  update_pr-KeepsM : (id : ℕ) (f : PullRequest → PullRequest) → KeepsM P (update_pr id f)
  unfolding update_pr
  update_pr-KeepsM id f db q = elim (Bool-cases (any (has_pr_id id) db.pull_request)) [
    | inl b ↦ rw b (done _ _ (k.elsewhere db _ (refl, refl, refl, refl) q))
    | inr b ↦ rw b (failed _)
  ]

  pub record_review-KeepsM :
      (now id : ℕ) (url : String) (verdict : CodeRabbitCommentType) (sha : Option String)
      → KeepsM P (record_review now id url verdict sha)
  unfolding record_review
  record_review-KeepsM now id url verdict sha db q =
      Holds-typed (update_pr id _) db (update_pr-KeepsM id _ db q)

  pub upsert-KeepsM : (now : ℕ) (d : UpsertCommentData) → KeepsM P (upsert now d)
  upsert-KeepsM now d db q = go _ (upsert-IsSame now d db)
    where
      go : (x : Result (Unit {0} × Db)) → Holds (λ _ db'. IsSame db db') x → Holds (λ _. P) x
      go x (failed e) = failed e
      go x (done u db' same) = done u db' (k.elsewhere db db' same q)
