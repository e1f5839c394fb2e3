-- ===== src/Comments.antt =====
-- CoderabbitCommentRepository (src/db/coderabbitCommentRepository.ts). Soft deletion: the reads see
-- the rows that are not deleted, and of these a comment id has one at most.
pub mod Latest
pub mod Deactivated
mod Examples
use rabbit_maximizer.Prelude.{
  ℕ, suc, String, Bool, true, false, Option, none, some, List, [], ◌∷◌, ◌++◌, map, ◌==◌, ◌&&◌, leb,
  ltb, if◌then◌else◌, keep, find, any,
}
use rabbit_maximizer.Domain.{
  CommentId, same_comment, CodeRabbitCommentType, review_limited, review_skipped, review_approved,
  review_changes_suggested, unknown,
}
use rabbit_maximizer.Schema.{CoderabbitComment, Db}
use rabbit_maximizer.Store.{
  M, ok, err, Error, unique_constraint_violation, known_request, p2002, p2003, ◌>>=◌, ◌>>◌, return, throw,
  catch, with_prisma_error_handling,
}

pub record UpsertCommentData : Type 0 where
  pub comment_id : CommentId
  pub pull_request_id : ℕ
  pub url : String
  pub comment_type : CodeRabbitCommentType
  pub body_preview : Option String
  pub gh_created_at : ℕ
  pub gh_updated_at : ℕ
  pub coderabbit_run_id : Option String

abbrev pub is_comment : CommentId → CoderabbitComment → Bool
is_comment id c = c.is_not_deleted && same_comment c.comment_id id

abbrev pub find_comment : CommentId → List CoderabbitComment → Option CoderabbitComment
find_comment id rows = find (is_comment id) rows

-- `where: { id, gh_updated_at: { lte } }`: a stored revision that is newer stays.
abbrev pub takes : ℕ → UpsertCommentData → CoderabbitComment → Bool
takes id d c = c.is_not_deleted && c.id == id && leb c.gh_updated_at d.gh_updated_at

abbrev pub update_comment : ℕ → UpsertCommentData → CoderabbitComment → CoderabbitComment
update_comment now d c = record c {
  url = d.url;
  comment_type = d.comment_type;
  last_body_preview = d.body_preview;
  coderabbit_run_id = d.coderabbit_run_id;
  gh_updated_at = d.gh_updated_at;
  last_seen_at = now;
}

abbrev pub new_comment : ℕ → UpsertCommentData → ℕ → CoderabbitComment
new_comment now d id = record {
  id = id;
  pull_request_id = d.pull_request_id;
  comment_id = d.comment_id;
  url = d.url;
  comment_type = d.comment_type;
  last_body_preview = d.body_preview;
  coderabbit_run_id = d.coderabbit_run_id;
  gh_created_at = d.gh_created_at;
  gh_updated_at = d.gh_updated_at;
  first_seen_at = now;
  last_seen_at = now;
  is_not_deleted = true;
}

unfoldable pub update_existing : ℕ → UpsertCommentData → CoderabbitComment → M (Unit {0})
update_existing now d existing db = ok (
  tt,
  record db {
    coderabbit_comment =
        map (λ c. if takes existing.id d c then update_comment now d c else c)
          db.coderabbit_comment;
  },
)

abbrev pub has_pull_request : Db → ℕ → Bool
has_pull_request db id = any (λ p. p.id == id) db.pull_request

-- The foreign key is checked after the unique index, at the end of the statement.
unfoldable pub create_comment : ℕ → UpsertCommentData → M (Unit {0})
create_comment now d db =
    if any (is_comment d.comment_id) db.coderabbit_comment
    then err (known_request p2002)
    else if has_pull_request db d.pull_request_id
    then ok (
      tt,
      record db {
        coderabbit_comment = db.coderabbit_comment ++ new_comment now d db.next_comment_id ∷ [];
        next_comment_id = suc db.next_comment_id;
      },
    )
    else err (known_request p2003)

-- The recovery from a create that lost a race.
unfoldable pub update_winner :
    ℕ → UpsertCommentData → Error → Option CoderabbitComment → M (Unit {0})
unfolding update_existing
update_winner now d e none = throw e
update_winner now d e (some winner) = update_existing now d winner

unfoldable pub recover_upsert : ℕ → UpsertCommentData → Error → M (Unit {0})
unfolding update_winner
recover_upsert now d unique_constraint_violation db =
    update_winner now d unique_constraint_violation
      (find_comment d.comment_id db.coderabbit_comment) db
recover_upsert now d e db = throw e db

unfoldable pub upsert_found : ℕ → UpsertCommentData → Option CoderabbitComment → M (Unit {0})
unfolding update_existing create_comment recover_upsert
upsert_found now d (some existing) = update_existing now d existing
upsert_found now d none =
    catch (with_prisma_error_handling (create_comment now d)) (recover_upsert now d)

unfoldable pub upsert : ℕ → UpsertCommentData → M (Unit {0})
unfolding upsert_found
upsert now d db = upsert_found now d (find_comment d.comment_id db.coderabbit_comment) db

-- COMPLETED_REVIEW_TYPES, and isReviewVerdictState.
abbrev pub is_review_verdict : CodeRabbitCommentType → Bool
is_review_verdict review_approved = true
is_review_verdict review_changes_suggested = true
is_review_verdict _ = false

-- `orderBy: { gh_created_at: 'desc' }` of a findFirst, the first in the table among equals.
abbrev pub latest_created : List CoderabbitComment → Option CoderabbitComment
latest_created [] = none
latest_created (c ∷ cs) = elim (latest_created cs) [
  | none ↦ some c
  | some d ↦ if leb d.gh_created_at c.gh_created_at then some c else some d
]

abbrev pub of_pull_request : ℕ → CoderabbitComment → Bool
of_pull_request id c = c.is_not_deleted && c.pull_request_id == id

unfoldable pub find_completed_review : ℕ → Db → Option CoderabbitComment
find_completed_review pull_request_id db = latest_created (
    keep (λ c. of_pull_request pull_request_id c && is_review_verdict c.comment_type)
      db.coderabbit_comment)

unfoldable pub find_by_comment_id : ℕ → CommentId → Db → Option CoderabbitComment
find_by_comment_id pull_request_id id db =
    find (λ c. of_pull_request pull_request_id c && is_comment id c) db.coderabbit_comment

abbrev pub insert_created : CoderabbitComment → List CoderabbitComment → List CoderabbitComment
insert_created c [] = c ∷ []
insert_created c (d ∷ ds) =
    if leb d.gh_created_at c.gh_created_at then c ∷ d ∷ ds else d ∷ insert_created c ds

-- `orderBy: { gh_created_at: 'desc' }` of a findMany, in the order of the table among equals.
abbrev pub newest_created_first : List CoderabbitComment → List CoderabbitComment
newest_created_first [] = []
newest_created_first (c ∷ cs) = insert_created c (newest_created_first cs)

unfoldable pub find_by_pr : ℕ → Db → List CoderabbitComment
find_by_pr pull_request_id db =
    newest_created_first (keep (of_pull_request pull_request_id) db.coderabbit_comment)

abbrev pub same_type : CodeRabbitCommentType → CodeRabbitCommentType → Bool
same_type review_limited review_limited = true
same_type review_skipped review_skipped = true
same_type review_approved review_approved = true
same_type review_changes_suggested review_changes_suggested = true
same_type unknown unknown = true
same_type _ _ = false

unfoldable pub find_by_type : ℕ → CodeRabbitCommentType → Db → Option CoderabbitComment
find_by_type pull_request_id comment_type db = latest_created (
    keep (λ c. of_pull_request pull_request_id c && same_type c.comment_type comment_type)
      db.coderabbit_comment)

abbrev pub deactivated : CoderabbitComment → CoderabbitComment
deactivated c = record c { is_not_deleted = false }

-- softDeleteRow: the rows of the id that are not deleted take the marker.
unfoldable pub deactivate : CommentId → M (Unit {0})
deactivate id db = ok (
  tt,
  record db {
    coderabbit_comment =
        map (λ c. if is_comment id c then deactivated c else c) db.coderabbit_comment;
  },
)
