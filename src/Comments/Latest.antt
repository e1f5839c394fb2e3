-- ===== src/Comments/Latest.antt =====
-- The stored revision of a comment never goes back.
use rabbit_maximizer.Prelude.{
  ℕ, suc, ◌≡◌, refl, sym, ◌∙◌, ap, subst, true, false, Option, none, some, List, [], ◌∷◌, ◌++◌, map,
  leb, if◌then◌else◌, any, Bool-cases, Option-cases, inl, inr, arith,
}
use rabbit_maximizer.Domain.{CommentId, same_comment, pos, negsuc}
use rabbit_maximizer.Schema.{CoderabbitComment, Db}
use rabbit_maximizer.Store.{ok, catch, with_prisma_error_handling}
use rabbit_maximizer.Comments.{
  UpsertCommentData, has_pull_request, is_comment, find_comment, takes, update_comment, new_comment, update_existing,
  create_comment, recover_upsert, upsert_found, upsert,
}

same_comment_self : (i : CommentId) → same_comment i i ≡ true
same_comment_self (pos n) = ground arith
same_comment_self (negsuc n) = ground arith

-- The revision kept of two: the later one, the new one among equals.
abbrev pub later_revision : ℕ → UpsertCommentData → CoderabbitComment → CoderabbitComment
later_revision now d c = if leb c.gh_updated_at d.gh_updated_at then update_comment now d c else c

module _ (now : ℕ) (d : UpsertCommentData) where
  abbrev written : ℕ → CoderabbitComment → CoderabbitComment
  written id c = if takes id d c then update_comment now d c else c

  written-is_comment :
      (id : ℕ) (c : CoderabbitComment)
      → is_comment d.comment_id (written id c) ≡ is_comment d.comment_id c
  written-is_comment id c = elim (Bool-cases (takes id d c)) [
    | inl q ↦ rw q refl
    | inr q ↦ rw q refl
  ]

  written-later :
      (e : CoderabbitComment)
      → is_comment d.comment_id e ≡ true
      → written e.id e ≡ later_revision now d e
  written-later e q =
      let k : takes e.id d e ≡ leb e.gh_updated_at d.gh_updated_at = ground (arith, q) in rw k refl

  find-written :
      (e : CoderabbitComment) (rows : List CoderabbitComment)
      → find_comment d.comment_id rows ≡ some e
      → find_comment d.comment_id (map (written e.id) rows) ≡ some (later_revision now d e)
  find-written e [] h = absurd (cc)
  find-written e (x ∷ xs) h = elim (Bool-cases (is_comment d.comment_id x)) [
    | inr q ↦ rw (written-is_comment e.id x, q) (find-written e xs (sym (rw q refl) ∙ h))
    | inl q ↦
        let k : x ≡ e = taken x e (sym (rw q refl) ∙ h) in
        let t : is_comment d.comment_id (written e.id x) ≡ true = written-is_comment e.id x ∙ q in
        rw t (
          ap some (
            ap (written e.id) k
            ∙ written-later e (subst (λ z. is_comment d.comment_id z ≡ true) k q)))
  ]
    where
      taken : (x e : CoderabbitComment) → some x ≡ some e → x ≡ e
      taken x e p = cc

  find-appended :
      (id : ℕ) (rows : List CoderabbitComment)
      → find_comment d.comment_id rows ≡ none
      → (any (is_comment d.comment_id) rows ≡ false)
        × (find_comment d.comment_id (rows ++ new_comment now d id ∷ [])
            ≡ some (new_comment now d id))
  find-appended id [] h = (refl, rw (same_comment_self d.comment_id) refl)
  find-appended id (x ∷ xs) h = elim (Bool-cases (is_comment d.comment_id x)) [
    | inl q ↦ absurd (taken (sym (rw q refl) ∙ h))
    | inr q ↦ let k = find-appended id xs (sym (rw q refl) ∙ h) in (rw q k.0, rw q k.1)
  ]
    where
      taken : some x ≡ none → ⊥
      taken e = cc

  -- The revision that the table holds after an upsert.
  abbrev pub revision_after : Option CoderabbitComment → ℕ → CoderabbitComment
  revision_after none id = new_comment now d id
  revision_after (some e) id = later_revision now d e

  created :
      (db : Db)
      → find_comment d.comment_id db.coderabbit_comment ≡ none
      → has_pull_request db d.pull_request_id ≡ true
      → (db' : Db) × (catch
            (with_prisma_error_handling (create_comment now d))
            (recover_upsert now d)
            db
          ≡ ok (tt, db'))
        × (find_comment d.comment_id db'.coderabbit_comment
            ≡ some (new_comment now d db.next_comment_id))
        × (db'.review_queue ≡ db.review_queue)
  unfolding create_comment with_prisma_error_handling
  created db h known =
      let k = find-appended db.next_comment_id db.coderabbit_comment h in
      (
        record db {
          coderabbit_comment = db.coderabbit_comment ++ new_comment now d db.next_comment_id ∷ [];
          next_comment_id = suc db.next_comment_id;
        },
        rw (k.0, known, catch, with_prisma_error_handling, create_comment) refl,
        k.1,
        refl,
      )

  pub upsert-find :
      (db : Db)
      → has_pull_request db d.pull_request_id ≡ true
      → (db' : Db) × (upsert now d db ≡ ok (tt, db'))
        × (find_comment d.comment_id db'.coderabbit_comment
            ≡ some (
                revision_after
                  (find_comment d.comment_id db.coderabbit_comment)
                  db.next_comment_id))
        × (db'.review_queue ≡ db.review_queue)
  unfolding upsert upsert_found update_existing
  upsert-find db known = elim (Option-cases (find_comment d.comment_id db.coderabbit_comment)) [
    | inl q ↦ rw (q, upsert_found) (created db q known)
    | inr (e, q) ↦ rw (q, upsert_found) (_, refl, find-written e db.coderabbit_comment q, refl)
  ]
