-- ===== src/Comments/Deactivated.antt =====
-- A comment that is deactivated is not read again, and every other one reads as before.
use rabbit_maximizer.Prelude.{
  ◌≡◌, refl, true, false, none, List, [], ◌∷◌, map, if◌then◌else◌, Bool-cases, inl, inr, arith,
}
use rabbit_maximizer.Domain.{CommentId, same_comment, pos, negsuc}
use rabbit_maximizer.Schema.{CoderabbitComment, Db}
use rabbit_maximizer.Store.{ok}
use rabbit_maximizer.Comments.{is_comment, find_comment, deactivated, deactivate}

same_comment-apart :
    (c id other : CommentId)
    → same_comment c id ≡ true
    → same_comment other id ≡ false
    → same_comment c other ≡ false
same_comment-apart (pos a) (pos b) (pos c) h k = ground (arith, h, k)
same_comment-apart (pos a) (pos b) (negsuc c) h k = refl
same_comment-apart (pos a) (negsuc b) other h k = absurd (cc)
same_comment-apart (negsuc a) (pos b) other h k = absurd (cc)
same_comment-apart (negsuc a) (negsuc b) (pos c) h k = refl
same_comment-apart (negsuc a) (negsuc b) (negsuc c) h k = ground (arith, h, k)

module _ (id : CommentId) where
  abbrev marked : CoderabbitComment → CoderabbitComment
  marked c = if is_comment id c then deactivated c else c

  same-id : (c : CoderabbitComment) → is_comment id c ≡ true → same_comment c.comment_id id ≡ true
  same-id c h = ground (arith, h)

  find-marked : (rows : List CoderabbitComment) → find_comment id (map marked rows) ≡ none
  find-marked [] = refl
  find-marked (x ∷ xs) = elim (Bool-cases (is_comment id x)) [
    | inl e ↦ rw e (find-marked xs)
    | inr e ↦ rw (e, e) (find-marked xs)
  ]

  module _ (other : CommentId) (apart : same_comment other id ≡ false) where
    is_comment-apart :
        (c : CoderabbitComment)
        → same_comment c.comment_id other ≡ false
        → is_comment other c ≡ false
    is_comment-apart c h = ground (arith, h)

    find-others :
        (rows : List CoderabbitComment)
        → find_comment other (map marked rows) ≡ find_comment other rows
    find-others [] = refl
    find-others (x ∷ xs) = elim (Bool-cases (is_comment id x)) [
      | inl e ↦
          let no : is_comment other x ≡ false =
            is_comment-apart x (same_comment-apart x.comment_id id other (same-id x e) apart) in
          rw (e, no) (find-others xs)
      | inr e ↦ elim (Bool-cases (is_comment other x)) [
        | inl q ↦ rw (e, q) refl
        | inr q ↦ rw (e, q) (find-others xs)
      ]
    ]

-- A deactivation succeeds, the comment is not found after it, and a comment of another id is
-- found or missed as before.
pub deactivate-find :
    (id other : CommentId) (db : Db)
    → same_comment other id ≡ false
    → (db' : Db) × (deactivate id db ≡ ok (tt, db'))
      × (find_comment id db'.coderabbit_comment ≡ none)
      × (find_comment other db'.coderabbit_comment ≡ find_comment other db.coderabbit_comment)
unfolding deactivate
deactivate-find id other db apart = (
  _,
  refl,
  find-marked id db.coderabbit_comment,
  find-others id other apart db.coderabbit_comment,
)
