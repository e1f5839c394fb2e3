-- ===== src/Detection/Latched.antt =====
-- The handling of a detected comment leaves the system state as it is.
use rabbit_maximizer.Prelude.{ℕ, ◌≡◌, refl, ◌∙◌, Option, none, List, Bool-cases, inl, inr}
use rabbit_maximizer.Domain.{
  CodeRabbitCommentType, review_limited, review_skipped, review_approved, review_changes_suggested,
  unknown,
}
use rabbit_maximizer.Schema.{CoderabbitComment, Event, Db, SystemStateRow}
use rabbit_maximizer.Store.{Result, ◌>>=◌, record_event}
use rabbit_maximizer.Queue.Rules.{Holds, failed, done}
use rabbit_maximizer.Queue.Enqueue.{enqueue}
use rabbit_maximizer.Queue.Enqueue.Elsewhere.{IsElsewhere, enqueue-Leaves}
use rabbit_maximizer.Queue.Requests.{EnqueueData, EnqueueResult}
use rabbit_maximizer.PullRequests.{record_review, record_review_limit_detection}
use rabbit_maximizer.Comments.{upsert, find_completed_review}
use rabbit_maximizer.Service.{Setting, World, classify_coderabbit_comment}
use rabbit_maximizer.Reviews.Kept.{KeepsM, bind-KeepsM, transact-KeepsT, same-KeepsM, upsert-IsSame}
use rabbit_maximizer.Detection.{
  DetectedComment, note_created, enqueue_comment, enqueue_data, by_classification, take_in,
  dismiss_or_take_in, is_already_reviewed, handle, comment_data,
}
use rabbit_maximizer.Detection.Tables.{record_review-IsSame, record_review_limit_detection-IsSame}

module _ (st : List SystemStateRow) where
  abbrev Latched : Db → Type 0
  Latched db = db.system_state ≡ st

  elsewhere : (db db' : Db) → db'.system_state ≡ db.system_state → Latched db → Latched db'
  elsewhere db db' same q = same ∙ q

  event-KeepsM : (e : Event) → KeepsM Latched (record_event e)
  unfolding record_event
  event-KeepsM e db q = done _ _ q

  module _ (s : Setting) (c : DetectedComment) (id : ℕ) where
    enqueue-KeepsM :
        (d : EnqueueData) → KeepsM Latched (enqueue s.env s.cfg.review_detection_lookback_sec d)
    enqueue-KeepsM d db q =
        go _ (
          enqueue-Leaves db s.env s.cfg.review_detection_lookback_sec d db (refl, refl, refl, refl))
      where
        go :
            (x : Result (EnqueueResult × Db))
            → Holds (λ _. IsElsewhere db) x
            → Holds (λ _. Latched) x
        go x (failed e) = failed e
        go x (done a db' same) = done a db' (same.2 ∙ q)

    note_created-KeepsM : (r : EnqueueResult) → KeepsM Latched (note_created s c r)
    unfolding note_created record_event
    note_created-KeepsM r db q = elim (Bool-cases r.created) [
      | inl e ↦ rw e (done _ _ q)
      | inr e ↦ rw e (done _ _ q)
    ]

    enqueue_comment-KeepsM : (t : Option ℕ) → KeepsM Latched (enqueue_comment s c id t)
    unfolding enqueue_comment
    enqueue_comment-KeepsM t =
        bind-KeepsM Latched (enqueue _ _ _) _ (enqueue-KeepsM (enqueue_data s c id t))
          note_created-KeepsM

    verdict-KeepsM :
        (verdict : CodeRabbitCommentType) (e : Event)
        → KeepsM Latched (record_review s.env.now id c.url verdict none >>= λ _. record_event e)
    verdict-KeepsM verdict e =
        bind-KeepsM Latched (record_review s.env.now id c.url verdict none) _
          (same-KeepsM Latched _ elsewhere (record_review-IsSame s.env.now id c.url verdict none))
          (λ _. event-KeepsM e)

    by_classification-KeepsM :
        (type : CodeRabbitCommentType) → KeepsM Latched (by_classification s c id type)
    unfolding by_classification
    by_classification-KeepsM review_skipped =
        bind-KeepsM Latched (enqueue_comment s c id none) _ (enqueue_comment-KeepsM none)
          (λ _. event-KeepsM _)
    by_classification-KeepsM review_approved = verdict-KeepsM review_approved _
    by_classification-KeepsM review_changes_suggested = verdict-KeepsM review_changes_suggested _
    by_classification-KeepsM review_limited = enqueue_comment-KeepsM _
    by_classification-KeepsM unknown = enqueue_comment-KeepsM _

    take_in-KeepsM : KeepsM Latched (take_in s c id)
    unfolding take_in
    take_in-KeepsM =
        bind-KeepsM Latched (record_review_limit_detection s.env.now id s.env.now) _
          (same-KeepsM Latched _ elsewhere
            (record_review_limit_detection-IsSame s.env.now id s.env.now))
          (λ _.
            bind-KeepsM Latched (upsert s.env.now (comment_data s c id)) _
              (same-KeepsM Latched _ elsewhere (upsert-IsSame s.env.now (comment_data s c id)))
              (λ _. by_classification-KeepsM (classify_coderabbit_comment s.text c.body)))

    dismiss_or_take_in-KeepsM :
        (review : Option CoderabbitComment) → KeepsM Latched (dismiss_or_take_in s c id review)
    unfolding dismiss_or_take_in
    dismiss_or_take_in-KeepsM review db q = elim (Bool-cases (is_already_reviewed c review)) [
      | inl e ↦
          rw e
            (same-KeepsM Latched _ elsewhere (upsert-IsSame s.env.now (comment_data s c id)) db q)
      | inr e ↦ rw e (take_in-KeepsM db q)
    ]

-- The handling of a detected comment leaves the system state as it is.
pub handle-system_state :
    (s : Setting) (c : DetectedComment) (id : ℕ) (w : World)
    → (handle s c id w).1.db.system_state ≡ w.db.system_state
unfolding handle
handle-system_state s c id w =
    transact-KeepsT (Latched w.db.system_state) _
      (dismiss_or_take_in-KeepsM w.db.system_state s c id (find_completed_review id w.db)) w refl
