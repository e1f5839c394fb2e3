-- ===== src/Github/Examples.antt =====
-- A listing of three reviews and one of two comments, of which each fits one page.
use rabbit_maximizer.Prelude.{
  ℕ, suc, zero, ◌*◌, ◌≡◌, refl, true, false, none, some, List, [], ◌∷◌, arith,
}
use rabbit_maximizer.Samples.{plain_text}
use rabbit_maximizer.Service.{Response, answered, CommentText, CompletedReview}
use rabbit_maximizer.Github.{
  SubmittedReviewRaw, CommentRaw, per_page, take, drop, is_accepted, is_matching_completed_review,
  is_review_for_run, find_completed_review, list_comments, review_bot_login, ListedComment,
  unknown_user,
}
use rabbit_maximizer.Github.Pages.{find_completed_review-last, list_comments-map}

abbrev pages : {A : Type 0} → List A → ℕ → Response (List A)
pages listing zero = answered []
pages listing (suc n) = answered (take per_page (drop (n * per_page) listing))

abbrev older : SubmittedReviewRaw
older = record {
  id = 1;
  html_url = "https://r/1";
  user_login = some review_bot_login;
  body = some "done";
  submitted_at = some 20;
  commit_id = some "sha-a";
}

abbrev newer : SubmittedReviewRaw
newer = record older { id = 2; html_url = "https://r/2"; submitted_at = some 30 }

abbrev by_someone : SubmittedReviewRaw
by_someone = record older { id = 3; html_url = "https://r/3"; user_login = some "someone" }

abbrev reviews : List SubmittedReviewRaw
reviews = older ∷ newer ∷ by_someone ∷ []

abbrev done_text : CommentText
done_text = record plain_text { is_completed_review = λ _. true }

abbrev found : CompletedReview
found = record { html_url = "https://r/2"; is_approval = false; commit_id = some "sha-a" }

find_completed_review-last_example :
    find_completed_review done_text 10 (some "run-b") (some "sha-a") (pages reviews) 1
    ≡ some (answered (some found))
unfolding is_accepted is_matching_completed_review is_review_for_run
find_completed_review-last_example =
    find_completed_review-last done_text 10 (some "run-b") (some "sha-a") (pages reviews) reviews
      (λ n. refl) 1 (omega arith)

abbrev raw_comment : CommentRaw
raw_comment = record { id = 5; body = none; created_at = 1; updated_at = 2; user_login = none }

abbrev listed : ListedComment
listed = record {
  body = "<EMPTY_BODY>";
  user = unknown_user;
  id = 5;
  created_at = 1;
  updated_at = 2;
}

list_comments-map_example :
    list_comments (pages (raw_comment ∷ raw_comment ∷ [])) 1
    ≡ some (answered (listed ∷ listed ∷ []))
list_comments-map_example =
    list_comments-map (pages (raw_comment ∷ raw_comment ∷ [])) (raw_comment ∷ raw_comment ∷ [])
      (λ n. refl) 1 (omega arith)
