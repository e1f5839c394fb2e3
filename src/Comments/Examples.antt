-- ===== src/Comments/Examples.antt =====
-- A comment that is stored, and an older revision of it that arrives late.
use rabbit_maximizer.Prelude.{◌≡◌, refl, none, some, [], ◌∷◌, ◌++◌}
use rabbit_maximizer.Domain.{pos, review_limited, review_approved}
use rabbit_maximizer.Schema.{Db}
use rabbit_maximizer.Store.{ok}
use rabbit_maximizer.Samples.{waiting}
use rabbit_maximizer.Queue.Traces.{empty_db}
use rabbit_maximizer.Comments.{
  UpsertCommentData, find_comment, find_by_type, deactivate, new_comment,
}
use rabbit_maximizer.Comments.Deactivated.{deactivate-find}

abbrev revision : UpsertCommentData
revision = record {
  comment_id = pos 11;
  pull_request_id = 3;
  url = "https://c/11";
  comment_type = review_approved;
  body_preview = some "done";
  gh_created_at = 10;
  gh_updated_at = 90;
  coderabbit_run_id = some "run-b";
}

abbrev late : UpsertCommentData
late = record revision { comment_type = review_limited; gh_updated_at = 50 }

abbrev stored : Db
stored = record empty_db {
  pull_request = waiting ∷ [];
  coderabbit_comment = new_comment 95 revision 1 ∷ [];
  next_comment_id = 2;
}

abbrev two_stored : Db
two_stored = record stored {
  coderabbit_comment =
      stored.coderabbit_comment ++ new_comment 96 (record revision { comment_id = pos 12 }) 2 ∷ [];
  next_comment_id = 3;
}

deactivate-find_example :
    (db' : Db) × (deactivate (pos 11) two_stored ≡ ok (tt, db'))
    × (find_comment (pos 11) db'.coderabbit_comment ≡ none)
    × (find_comment (pos 12) db'.coderabbit_comment
        ≡ find_comment (pos 12) two_stored.coderabbit_comment)
deactivate-find_example = deactivate-find (pos 11) (pos 12) two_stored refl

found_by_type : find_by_type 3 review_approved stored ≡ some (new_comment 95 revision 1)
unfolding find_by_type
found_by_type = refl
