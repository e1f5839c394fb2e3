-- ===== src/Detection/Dismissal.antt =====
-- What the service does with a comment that was reviewed already, and with one that carries a verdict.
use rabbit_maximizer.Prelude.{
  ℕ, ◌≡◌, refl, sym, ap, subst, ◌∙◌, Bool, true, false, none, some, List, [], ◌∷◌, ◌==◌, ==_iff, ◌&&◌, leb, keep, All, Bool-cases, Option-cases, inl, inr, if◌then◌else◌, arith,
}
use rabbit_maximizer.Schema.{CoderabbitComment, Db}
use rabbit_maximizer.Store.{ok}
use rabbit_maximizer.Comments.{
  find_comment, has_pull_request, latest_created, of_pull_request, is_review_verdict, find_completed_review,
}
use rabbit_maximizer.Comments.Latest.{upsert-find, revision_after}
use rabbit_maximizer.Service.{Setting, World, transact, committed}
use rabbit_maximizer.Detection.{
  DetectedComment, is_already_reviewed, comment_data, dismiss_or_take_in, handle,
}

-- The foreign key of the comments.
abbrev pub IsReferencing : Db → Type 0
IsReferencing db =
    All (λ c. has_pull_request db c.pull_request_id ≡ true) db.coderabbit_comment

latest_created-All :
    (P : CoderabbitComment → Type 0) (cs : List CoderabbitComment) (c : CoderabbitComment)
    → All P cs
    → latest_created cs ≡ some c
    → P c
latest_created-All P [] c h e = absurd (cc)
latest_created-All P (x ∷ xs) c h e = elim (Option-cases (latest_created xs)) [
  | inl q ↦ subst P (same x (sym (rw q refl) ∙ e)) h.0
  | inr (d, q) ↦ elim (Bool-cases (leb d.gh_created_at x.gh_created_at)) [
    | inl b ↦ subst P (same x (sym (rw (q, b) refl) ∙ e)) h.0
    | inr b ↦ subst P (same d (sym (rw (q, b) refl) ∙ e)) (latest_created-All P xs d h.1 q)
  ]
]
  where
    same : (y : CoderabbitComment) → some y ≡ some c → y ≡ c
    same y e = cc

module _ (id : ℕ) (db : Db) where
  kept-known :
      (p : CoderabbitComment → Bool) (cs : List CoderabbitComment)
      → All (λ c. has_pull_request db c.pull_request_id ≡ true) cs
      → All (λ c. has_pull_request db id ≡ true)
        (keep (λ c. of_pull_request id c && p c) cs)
  kept-known p [] h = tt
  kept-known p (c ∷ cs) h = elim (Bool-cases (of_pull_request id c && p c)) [
    | inr e ↦ rw e (kept-known p cs h.1)
    | inl e ↦
        let mine : (c.pull_request_id == id) ≡ true = ground (arith, e) in
        rw e (
          subst (λ i. has_pull_request db i ≡ true) ((==_iff c.pull_request_id id).0 mine) h.0,
          kept-known p cs h.1,
        )
  ]

  reviewed-known :
      (c : DetectedComment)
      → IsReferencing db
      → is_already_reviewed c (find_completed_review id db) ≡ true
      → has_pull_request db id ≡ true
  unfolding find_completed_review
  reviewed-known c h e = elim (Option-cases (find_completed_review id db)) [
    | inl q ↦ absurd (missed (sym (rw q refl) ∙ e))
    | inr (r, q) ↦
        latest_created-All (λ _. has_pull_request db id ≡ true) _ r
          (kept-known (λ z. is_review_verdict z.comment_type) db.coderabbit_comment h) q
  ]
    where
      missed : Path Bool false true → ⊥
      missed e = cc

-- Where a completed review is stored that is not older than the edit of a detected comment, the
-- handler succeeds, posts nothing, leaves the queue as it is, and stores the later revision of
-- the comment.
pub handle-reviewed :
    (s : Setting) (c : DetectedComment) (id : ℕ) (w : World)
    → IsReferencing w.db
    → is_already_reviewed c (find_completed_review id w.db) ≡ true
    → (db : Db) × (handle s c id w ≡ (ok tt, record w { db = db }))
      × (db.review_queue ≡ w.db.review_queue)
      × (find_comment c.comment_id db.coderabbit_comment
          ≡ some (
              revision_after s.env.now
                (comment_data s c id)
                (find_comment c.comment_id w.db.coderabbit_comment)
                w.db.next_comment_id))
unfolding handle dismiss_or_take_in transact
handle-reviewed s c id w known h =
    let k = upsert-find s.env.now (comment_data s c id) w.db (reviewed-known id w.db c known h) in
    (k.0, rw h (ap (committed w) k.1), k.3, k.2)
