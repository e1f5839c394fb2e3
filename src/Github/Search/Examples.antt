-- ===== src/Github/Search/Examples.antt =====
-- An open pull request in a listing, an acknowledgement among the comments, and a retrigger comment.
use rabbit_maximizer.Prelude.{
  ℕ, zero, suc, ◌*◌, ◌≡◌, refl, String, true, false, none, some, List, [], ◌∷◌, arith,
}
use rabbit_maximizer.Domain.{scheduler, review_limited}
use rabbit_maximizer.Store.{ok}
use rabbit_maximizer.Service.{Response, answered, refused}
use rabbit_maximizer.Scanner.{DiscoveredPr}
use rabbit_maximizer.Github.{per_page, take, drop, review_bot_login}
use rabbit_maximizer.Github.Urls.{includes, extract_repo_full_name}
use rabbit_maximizer.Github.Markers.{
  has_own_retrigger_marker, has_rate_limit_or_skip_marker, is_acknowledgement_comment,
}
use rabbit_maximizer.Github.Text.{split_repo}
use rabbit_maximizer.Github.Urls.{build_comment_url}
use rabbit_maximizer.Github.CommentUrl.{parse_comment_url}
use rabbit_maximizer.Github.CommentUrl.Built.{parse_comment_url-build_comment_url}
use rabbit_maximizer.Github.Body.{
  CommentDiagnosis, RetriggerDiagnosis, RunIdentity, source, safe_json, build_comment_body,
}
use rabbit_maximizer.Github.Body.Marked.{build_comment_body-marked}
use rabbit_maximizer.Github.Queries.{RepoFilter, user_filter}
use rabbit_maximizer.Github.Requests.{SearchItem, IssueComment, Octokit, visit_items}
use rabbit_maximizer.Github.Search.{
  visit_open_pr, visit_limited, list_open_prs, search_review_limit_comments, find_acknowledgement,
}
use rabbit_maximizer.Github.Search.Limits.{searches-take}
use rabbit_maximizer.Github.Search.Acknowledged.{find_acknowledgement-find}

abbrev pages : {A : Type 0} → List A → ℕ → Response (List A)
pages listing zero = answered []
pages listing (suc n) = answered (take per_page (drop (n * per_page) listing))

abbrev item : SearchItem
item = record {
  repository_url = "https://api.github.com/repos/acme/app";
  number = 7;
  title = "Add";
  user_login = some "ann";
}

abbrev plain : IssueComment
plain = record {
  id = 1;
  html_url = "https://c/1";
  body = some "hello";
  created_at = 5;
  updated_at = 5;
  user_login = some "ann";
}

abbrev acknowledgement : IssueComment
acknowledgement = record plain {
  id = 2;
  body = some "<!-- auto-generated reply by CodeRabbit -->";
  user_login = some review_bot_login;
}

abbrev octokit : Octokit
octokit = record {
  search_issues = λ q. pages (item ∷ []);
  newest_comments = λ name pr. answered (plain ∷ []);
  comments_since = λ name pr since. pages (plain ∷ acknowledgement ∷ []);
  get_comment = λ name id. refused none;
  get_pull = λ name pr. refused none;
  get_commit = λ name sha. refused none;
  create_comment = λ name pr body. answered "https://c/3";
}

abbrev filters : List RepoFilter
filters = user_filter "acme/*" ∷ []

abbrev discovered : DiscoveredPr
discovered = record {
  repo_full_name = "acme/app";
  pr_number = 7;
  pr_title = "Add";
  author_login = "ann";
}

searches-take_example :
    (list_open_prs octokit filters ≡ ok (discovered ∷ []))
    × (search_review_limit_comments octokit filters ≡ ok [])
unfolding visit_items visit_open_pr visit_limited extract_repo_full_name split_repo
    has_rate_limit_or_skip_marker
searches-take_example =
    searches-take octokit filters (item ∷ []) (item ∷ []) (λ n. refl) (λ n. refl)

find_acknowledgement-find_example :
    find_acknowledgement octokit (record { owner = "acme"; repo = "app" }) 7 3 1
    ≡ some (ok (some acknowledgement))
unfolding is_acknowledgement_comment
find_acknowledgement-find_example =
    find_acknowledgement-find octokit (record { owner = "acme"; repo = "app" }) 7 3
      (plain ∷ acknowledgement ∷ []) (λ n. refl) 1 (omega arith)

abbrev limited : CommentDiagnosis
limited = record {
  url = "https://c/1";
  created_at = some 60000;
  updated_at = some 60000;
  classification = review_limited;
  matched_marker = none;
}

abbrev diagnosis : RetriggerDiagnosis
diagnosis = record {
  source_comment = limited;
  replacement_comment = none;
  wait_seconds = some 90;
  decision = source;
}

abbrev identity : RunIdentity
identity = record { version = "1.0.0"; git_sha = "abc"; run_kind = "docker"; image_tags = "latest" }

abbrev raw : String
raw = "{\"url\": \"-->\"}"

build_comment_body-marked_example :
    (has_own_retrigger_marker (
        build_comment_body "https://r" 7260000
          (some "https://c/1")
          "run"
          scheduler
          (some diagnosis)
          identity
          raw)
      ≡ true)
    × (includes "-->" (safe_json raw) ≡ false)
build_comment_body-marked_example =
    build_comment_body-marked "https://r" 7260000 (some "https://c/1") "run" scheduler
      (some diagnosis) identity raw

parse_comment_url-build_comment_url_example :
    parse_comment_url (build_comment_url "acme/app" 7 2040)
    ≡ some (record { owner = "acme"; repo = "app"; comment_id = 2040 })
unfolding split_repo
parse_comment_url-build_comment_url_example =
    parse_comment_url-build_comment_url "acme/app" (record { owner = "acme"; repo = "app" }) 7 2040
      refl
