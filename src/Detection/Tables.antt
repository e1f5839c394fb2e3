-- ===== src/Detection/Tables.antt =====
-- The handler of a detected comment keeps the tables of the queue well formed.
use rabbit_maximizer.Prelude.{ℕ, String, refl, Option, none, some, any, Bool-cases, inl, inr}
use rabbit_maximizer.Domain.{
  CodeRabbitCommentType, review_limited, review_skipped, review_approved, review_changes_suggested,
  unknown,
}
use rabbit_maximizer.Schema.{PullRequest, CoderabbitComment, Event, Db}
use rabbit_maximizer.Store.{◌>>=◌, Result, record_event}
use rabbit_maximizer.Queue.Rules.{Holds, failed, done, Holds-bind, Holds-typed}
use rabbit_maximizer.Queue.WellFormed.{WellFormed}
use rabbit_maximizer.Queue.Requests.{EnqueueResult}
use rabbit_maximizer.Queue.Enqueue.{enqueue}
use rabbit_maximizer.Queue.Enqueue.Conflicting.{SamePr}
use rabbit_maximizer.Queue.Enqueue.Keeps.{enqueue-WellFormed}
use rabbit_maximizer.PullRequests.{
  has_pr_id, update_pr, record_review, record_review_limit_detection, record_walkthrough_review,
  record_acknowledgement,
}
use rabbit_maximizer.Comments.{upsert, find_completed_review}
use rabbit_maximizer.Service.{Setting, World, transact, committed}
use rabbit_maximizer.Reviews.Kept.{IsSame, upsert-IsSame}
use rabbit_maximizer.Reviews.Tables.{IsSame-WellFormed}
use rabbit_maximizer.Detection.{
  DetectedComment, comment_data, enqueue_data, note_created, enqueue_comment, cooldown_of,
  by_classification, take_in, dismiss_or_take_in, is_already_reviewed, handle,
}

pub update_pr-IsSame :
    (id : ℕ) (f : PullRequest → PullRequest) (db : Db)
    → Holds (λ _ db'. IsSame db db') (update_pr id f db)
unfolding update_pr
update_pr-IsSame id f db = elim (Bool-cases (any (has_pr_id id) db.pull_request)) [
  | inl b ↦ rw b (done _ _ (refl, refl, refl, refl))
  | inr b ↦ rw b (failed _)
]

pub record_review-IsSame :
    (now id : ℕ) (url : String) (verdict : CodeRabbitCommentType) (sha : Option String) (db : Db)
    → Holds (λ _ db'. IsSame db db') (record_review now id url verdict sha db)
unfolding record_review
record_review-IsSame now id url verdict sha db =
    Holds-typed (update_pr id _) db (update_pr-IsSame id _ db)

pub record_review_limit_detection-IsSame :
    (now id at : ℕ) (db : Db)
    → Holds (λ _ db'. IsSame db db') (record_review_limit_detection now id at db)
unfolding record_review_limit_detection
record_review_limit_detection-IsSame now id at db =
    Holds-typed (update_pr id _) db (update_pr-IsSame id _ db)

pub record_walkthrough_review-IsSame :
    (now id at : ℕ) (db : Db)
    → Holds (λ _ db'. IsSame db db') (record_walkthrough_review now id at db)
unfolding record_walkthrough_review
record_walkthrough_review-IsSame now id at db =
    Holds-typed (update_pr id _) db (update_pr-IsSame id _ db)

pub record_acknowledgement-IsSame :
    (now id : ℕ) (db : Db) → Holds (λ _ db'. IsSame db db') (record_acknowledgement now id db)
unfolding record_acknowledgement
record_acknowledgement-IsSame now id db = Holds-typed (update_pr id _) db (update_pr-IsSame id _ db)

module _ (s : Setting) (c : DetectedComment) (id : ℕ) where
  -- The comment of the handler belongs to one pull request in the tables.
  abbrev pub BelongsToOne : Db → Type 0
  BelongsToOne = SamePr (enqueue_data s c id none)

  BelongsToOne-IsSame : (db db' : Db) → IsSame db db' → BelongsToOne db → BelongsToOne db'
  BelongsToOne-IsSame db db' same b = rw same.0 b

  note_created-WellFormed :
      (result : EnqueueResult) (db : Db)
      → WellFormed db
      → Holds (λ _. WellFormed) (note_created s c result db)
  unfolding note_created record_event
  note_created-WellFormed result db v = elim (Bool-cases result.created) [
    | inl b ↦ rw b (done _ _ (IsSame-WellFormed db _ (refl, refl, refl, refl) v))
    | inr b ↦ rw b (done _ _ v)
  ]

  enqueue_comment-WellFormed :
      (cooldown_until : Option ℕ) (db : Db)
      → WellFormed db
      → BelongsToOne db
      → Holds (λ _. WellFormed) (enqueue_comment s c id cooldown_until db)
  unfolding enqueue_comment
  enqueue_comment-WellFormed cooldown_until db v b =
      let d = enqueue_data s c id cooldown_until in
      let lookback = s.cfg.review_detection_lookback_sec in
      Holds-bind (enqueue s.env lookback d) (note_created s c) db
        (enqueue-WellFormed s.env lookback d db b v)
        (λ result db' v'. note_created-WellFormed result db' v')

  verdict-WellFormed :
      (verdict : CodeRabbitCommentType) (e : Event) (db : Db)
      → WellFormed db
      → Holds
          (λ _. WellFormed)
          ((record_review s.env.now id c.url verdict none >>= λ _. record_event e) db)
  unfolding record_event
  verdict-WellFormed verdict e db v =
      Holds-bind (record_review s.env.now id c.url verdict none) (λ _. record_event e) db
        (record_review-IsSame s.env.now id c.url verdict none db)
        (λ _ db' same.
          done _ _
            (IsSame-WellFormed db' _ (refl, refl, refl, refl) (IsSame-WellFormed db db' same v)))

  by_classification-WellFormed :
      (type : CodeRabbitCommentType) (db : Db)
      → WellFormed db
      → BelongsToOne db
      → Holds (λ _. WellFormed) (by_classification s c id type db)
  unfolding by_classification record_event
  by_classification-WellFormed review_skipped db v b =
      Holds-bind (enqueue_comment s c id none) _ db (enqueue_comment-WellFormed none db v b)
        (λ _ db' v'. done _ _ (IsSame-WellFormed db' _ (refl, refl, refl, refl) v'))
  by_classification-WellFormed review_approved db v b = verdict-WellFormed review_approved _ db v
  by_classification-WellFormed review_changes_suggested db v b =
      verdict-WellFormed review_changes_suggested _ db v
  by_classification-WellFormed review_limited db v b =
      enqueue_comment-WellFormed (some (cooldown_of s c)) db v b
  by_classification-WellFormed unknown db v b =
      enqueue_comment-WellFormed (some (cooldown_of s c)) db v b

  upsert-WellFormed :
      (db : Db)
      → WellFormed db
      → BelongsToOne db
      → Holds
          (λ _ db'. WellFormed db' × BelongsToOne db')
          (upsert s.env.now (comment_data s c id) db)
  upsert-WellFormed db v b = go _ (upsert-IsSame s.env.now (comment_data s c id) db)
    where
      go :
          (x : Result (Unit {0} × Db))
          → Holds (λ _ db'. IsSame db db') x
          → Holds (λ _ db'. WellFormed db' × BelongsToOne db') x
      go x (failed e) = failed e
      go x (done u db' same) =
          done u db' (IsSame-WellFormed db db' same v, BelongsToOne-IsSame db db' same b)

  take_in-WellFormed :
      (db : Db) → WellFormed db → BelongsToOne db → Holds (λ _. WellFormed) (take_in s c id db)
  unfolding take_in
  take_in-WellFormed db v b =
      Holds-bind (record_review_limit_detection s.env.now id s.env.now) _ db
        (record_review_limit_detection-IsSame s.env.now id s.env.now db)
        (λ _ db' same.
          Holds-bind (upsert s.env.now (comment_data s c id)) _ db'
            (upsert-WellFormed db' (IsSame-WellFormed db db' same v)
              (BelongsToOne-IsSame db db' same b))
            (λ _ db'' k. by_classification-WellFormed _ db'' k.0 k.1))

  dismiss_or_take_in-WellFormed :
      (review : Option CoderabbitComment) (db : Db)
      → WellFormed db
      → BelongsToOne db
      → Holds (λ _. WellFormed) (dismiss_or_take_in s c id review db)
  unfolding dismiss_or_take_in
  dismiss_or_take_in-WellFormed review db v b = elim (Bool-cases (is_already_reviewed c review)) [
    | inl q ↦ rw q (dismissed _ (upsert-WellFormed db v b))
    | inr q ↦ rw q (take_in-WellFormed db v b)
  ]
    where
      dismissed :
          (x : Result (Unit {0} × Db))
          → Holds (λ _ db'. WellFormed db' × BelongsToOne db') x
          → Holds (λ _. WellFormed) x
      dismissed x (failed e) = failed e
      dismissed x (done u db' k) = done u db' k.0

  -- Where the tables of the queue are well formed and the detected comment belongs to one pull
  -- request in them, they are well formed after its handling, on every branch and wherever it
  -- fails.
  pub handle-WellFormed :
      (w : World) → WellFormed w.db → BelongsToOne w.db → WellFormed (handle s c id w).1.db
  unfolding handle transact
  handle-WellFormed w v b =
      committed-WellFormed _
        (dismiss_or_take_in-WellFormed (find_completed_review id w.db) w.db v b)
    where
      committed-WellFormed :
          (x : Result (Unit {0} × Db)) → Holds (λ _. WellFormed) x → WellFormed (committed w x).1.db
      committed-WellFormed x (failed e) = v
      committed-WellFormed x (done u db k) = k
