-- ===== src/Github.antt =====
-- CoderabbitGitHubClient (src/github/coderabbitGitHubClient.ts) where it reads listings page by
-- page, with the tests on a review (src/github/isMatchingCompletedReview.ts, isReviewForRun.ts).
pub mod Pages
pub mod Text
pub mod Urls
pub mod Markers
pub mod Body
pub mod Queries
pub mod Requests
pub mod Search
pub mod CommentUrl
mod Examples
use rabbit_maximizer.Prelude.{
  ℕ, zero, suc, ◌*◌, String, Bool, true, false, Option, none, some, List, [], ◌∷◌, ◌++◌, ◌≡◌, ◌&&◌,
  ltb, length, map, str_eq, opt_str_eq, keep, if◌then◌else◌,
}
use rabbit_maximizer.Service.{Response, answered, refused, CommentText, CompletedReview}

-- What Octokit lists of a review; `null` and a missing field are `none`.
pub record SubmittedReviewRaw : Type 0 where
  pub id : ℕ
  pub html_url : String
  pub user_login : Option String
  pub body : Option String
  pub submitted_at : Option ℕ
  pub commit_id : Option String

pub record SubmittedReview : Type 0 where
  pub user_login : Option String
  pub body : Option String
  pub submitted_at : Option ℕ
  pub commit_id : Option String

abbrev pub submitted_review : SubmittedReviewRaw → SubmittedReview
submitted_review raw = record {
  user_login = raw.user_login;
  body = raw.body;
  submitted_at = raw.submitted_at;
  commit_id = raw.commit_id;
}

pub record CommentRaw : Type 0 where
  pub id : ℕ
  pub body : Option String
  pub created_at : ℕ
  pub updated_at : ℕ
  pub user_login : Option String

pub record ListedComment : Type 0 where
  pub body : String
  pub user : String
  pub id : ℕ
  pub created_at : ℕ
  pub updated_at : ℕ

abbrev pub review_bot_login : String
review_bot_login = "coderabbitai[bot]"

abbrev pub unknown_user : String
unknown_user = "<unknown>"

-- COMMENTS_FETCH_PER_PAGE.
abbrev pub per_page : ℕ
per_page = 100

abbrev pub text_or : String → Option String → String
text_or fallback none = fallback
text_or fallback (some s) = s

abbrev pub normalize_comment_body : Option String → String
normalize_comment_body body = text_or "<EMPTY_BODY>" body

module _ {A : Type 0} where
  abbrev pub take : ℕ → List A → List A
  take zero xs = []
  take (suc n) [] = []
  take (suc n) (x ∷ xs) = x ∷ take n xs

  abbrev pub drop : ℕ → List A → List A
  drop zero xs = xs
  drop (suc n) [] = []
  drop (suc n) (x ∷ xs) = drop n xs

  abbrev pub last : List A → Option A
  last [] = none
  last (x ∷ []) = some x
  last (x ∷ y ∷ ys) = last (y ∷ ys)

  -- The pages of a listing as the documentation of the REST API describes them, from 1 on.
  abbrev pub IsPaged : (ℕ → Response (List A)) → List A → Type 0
  IsPaged list_page listing =
      (n : ℕ) → list_page (suc n) ≡ answered (take per_page (drop (n * per_page) listing))

module _ {A S : Type 0} where
  -- `for (const r of response.data)`.
  abbrev pub visit_all : (S → A → S) → S → List A → S
  visit_all visit s [] = s
  visit_all visit s (x ∷ xs) = visit_all visit (visit s x) xs

  -- One turn: a page that is not full is the last one.
  abbrev pub visit_page :
      (S → A → S) → S → Response (List A) → (S → Option (Response S)) → Option (Response S)
  visit_page visit s (refused status) next = some (refused status)
  visit_page visit s (answered xs) next =
      if ltb (length xs) per_page
      then some (answered (visit_all visit s xs))
      else next (visit_all visit s xs)

  -- `for (let page = 1; ; page++)`; `none` where the turns given do not reach the last page.
  unfoldable pub each_page : (ℕ → Response (List A)) → (S → A → S) → ℕ → ℕ → S → Option (Response S)
  each_page list_page visit zero page s = none
  each_page list_page visit (suc turns) page s =
      visit_page visit s (list_page page) (each_page list_page visit turns (suc page))

module _ (text : CommentText) where
  -- `new Date(review.submittedAt) > since`, on a review by the bot whose body is a completed one.
  unfoldable pub is_matching_completed_review : SubmittedReview → ℕ → Bool
  is_matching_completed_review review since = elim review.body [
    | none ↦ false
    | some body ↦ elim review.submitted_at [
      | none ↦ false
      | some submitted_at ↦
          opt_str_eq review.user_login (some review_bot_login)
          && text.is_completed_review body
          && ltb since submitted_at
    ]
  ]

  abbrev pub run_of : Option String → Option String
  run_of none = none
  run_of (some body) = text.extract_coderabbit_run_id body

  unfoldable pub is_review_for_run : SubmittedReview → Option String → Option String → Bool
  is_review_for_run review (some run) (some head) =
      if opt_str_eq review.commit_id (some head)
      then true
      else opt_str_eq (run_of review.body) (some run)
  is_review_for_run review none (some head) = opt_str_eq review.commit_id (some head)
  is_review_for_run review (some run) none = opt_str_eq (run_of review.body) (some run)
  is_review_for_run review none none = true

  abbrev pub completed_review : SubmittedReviewRaw → CompletedReview
  completed_review raw = record {
    html_url = raw.html_url;
    is_approval = text.is_approval_review_signal (text_or "" raw.body);
    commit_id = raw.commit_id;
  }

  module _ (since : ℕ) (expected_run_id expected_head_sha : Option String) where
    unfoldable pub is_accepted : SubmittedReviewRaw → Bool
    unfolding is_matching_completed_review is_review_for_run
    is_accepted raw =
        is_matching_completed_review (submitted_review raw) since
        && is_review_for_run (submitted_review raw) expected_run_id expected_head_sha

    abbrev pub latest_review : Option CompletedReview → SubmittedReviewRaw → Option CompletedReview
    latest_review latest raw = if is_accepted raw then some (completed_review raw) else latest

    unfoldable pub find_completed_review :
        (ℕ → Response (List SubmittedReviewRaw)) → ℕ → Option (Response (Option CompletedReview))
    unfolding each_page
    find_completed_review list_reviews turns = each_page list_reviews latest_review turns 1 none

abbrev pub listed_comment : CommentRaw → ListedComment
listed_comment c = record {
  body = normalize_comment_body c.body;
  user = text_or unknown_user c.user_login;
  id = c.id;
  created_at = c.created_at;
  updated_at = c.updated_at;
}

abbrev pub push_comment : List ListedComment → CommentRaw → List ListedComment
push_comment results c = results ++ listed_comment c ∷ []

unfoldable pub list_comments :
    (ℕ → Response (List CommentRaw)) → ℕ → Option (Response (List ListedComment))
unfolding each_page
list_comments list_page turns = each_page list_page push_comment turns 1 []
