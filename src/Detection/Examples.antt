-- ===== src/Detection/Examples.antt =====
-- A comment whose pull request was reviewed after its last edit, and one that is taken in.
use rabbit_maximizer.Prelude.{◌≡◌, refl, none, some, [], ◌∷◌}
use rabbit_maximizer.Domain.{pos, review_approved}
use rabbit_maximizer.Schema.{Db}
use rabbit_maximizer.Store.{ok}
use rabbit_maximizer.Samples.{waiting, at_time}
use rabbit_maximizer.Queue.Traces.{empty_db, Reachable-WellFormed, start}
use rabbit_maximizer.Comments.{UpsertCommentData, find_comment, find_completed_review, new_comment}
use rabbit_maximizer.Comments.Latest.{revision_after}
use rabbit_maximizer.Service.{World}
use rabbit_maximizer.Detection.{DetectedComment, comment_data, handle}
use rabbit_maximizer.Queue.WellFormed.{WellFormed}
use rabbit_maximizer.Reviews.Tables.{IsSame-WellFormed}
use rabbit_maximizer.Detection.Tables.{handle-WellFormed}
use rabbit_maximizer.Detection.Dismissal.{handle-reviewed}

abbrev review : UpsertCommentData
review = record {
  comment_id = pos 12;
  pull_request_id = 3;
  url = "https://c/12";
  comment_type = review_approved;
  body_preview = none;
  gh_created_at = 60;
  gh_updated_at = 90;
  coderabbit_run_id = none;
}

abbrev reviewed : World
reviewed = record {
  db = record empty_db {
    pull_request = waiting ∷ [];
    coderabbit_comment = new_comment 95 review 1 ∷ [];
    next_comment_id = 2;
  };
  posts = [];
  fetched = [];
}

abbrev detected : DetectedComment
detected = record {
  url = "https://c/11";
  repo_full_name = "o/r";
  pr_number = 7;
  comment_id = pos 11;
  created_at = 10;
  updated_at = 80;
  pr_title = "Add";
  body = "limited";
}

handle-reviewed_example :
    (db : Db) × (handle (at_time 200) detected 3 reviewed ≡ (ok tt, record reviewed { db = db }))
    × (db.review_queue ≡ reviewed.db.review_queue)
    × (find_comment detected.comment_id db.coderabbit_comment
        ≡ some (
            revision_after 200
              (comment_data (at_time 200) detected 3)
              (find_comment detected.comment_id reviewed.db.coderabbit_comment)
              reviewed.db.next_comment_id))
unfolding find_completed_review
handle-reviewed_example = handle-reviewed (at_time 200) detected 3 reviewed (refl, tt) refl

abbrev known : World
known = record { db = record empty_db { pull_request = waiting ∷ [] }; posts = []; fetched = [] }

handle-WellFormed_example : WellFormed (handle (at_time 200) detected 3 known).1.db
handle-WellFormed_example =
    handle-WellFormed (at_time 200) detected 3 known
      (IsSame-WellFormed empty_db known.db (refl, refl, refl, refl) (Reachable-WellFormed start)) tt
