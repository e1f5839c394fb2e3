-- ===== src/Github/Search.antt =====
-- CoderabbitGitHubClient (src/github/coderabbitGitHubClient.ts) where it searches, and its other
-- requests.
pub mod Limits
pub mod Acknowledged
mod Examples
use rabbit_maximizer.Prelude.{
  ℕ, zero, suc, String, Bool, true, false, Option, none, some, List, [], ◌∷◌, ◌++◌, map, find,
  length, ltb, str_eq, ◌&&◌, not, if◌then◌else◌,
}
use rabbit_maximizer.Domain.{pos, TriggerSource}
use rabbit_maximizer.Store.{Result, ok, err, Error, github, invalid_repo, invalid_comment_url}
use rabbit_maximizer.Service.{Response, answered, refused, FetchedComment, LatestComment}
use rabbit_maximizer.Detection.{DetectedComment}
use rabbit_maximizer.Scanner.{DiscoveredPr, GithubState}
use rabbit_maximizer.Github.{per_page, text_or, unknown_user, normalize_comment_body}
use rabbit_maximizer.Github.Text.{RepoName, split_repo, split_on}
use rabbit_maximizer.Github.Urls.{◌⧺◌, extract_repo_full_name}
use rabbit_maximizer.Github.CommentUrl.{ParsedCommentUrl, parse_comment_url}
use rabbit_maximizer.Github.Queries.{RepoFilter, build_search_query, build_open_pr_search_query}
use rabbit_maximizer.Github.Requests.{
  SearchItem, IssueComment, Pull, Octokit, max_pages, then_result, asked, visit_items, search_page,
  search_pages, named_result,
}
use rabbit_maximizer.Github.Markers.{
  has_rate_limit_marker, has_own_retrigger_marker, has_rate_limit_or_skip_marker,
  is_acknowledgement_comment,
}
use rabbit_maximizer.Github.Body.{join, RetriggerDiagnosis, RunIdentity, build_comment_body}

abbrev pub by_url : {A : Type 0} → Option ParsedCommentUrl → (RepoName → ℕ → Result A) → Result A
by_url none f = err invalid_comment_url
by_url (some parsed) f = f (record { owner = parsed.owner; repo = parsed.repo }) parsed.comment_id

abbrev pub discovered_of : SearchItem → String → DiscoveredPr
discovered_of item repo_full_name = record {
  repo_full_name = repo_full_name;
  pr_number = item.number;
  pr_title = item.title;
  author_login = text_or unknown_user item.user_login;
}

abbrev pub push_discovered :
    List DiscoveredPr → SearchItem → Option String → Result (List DiscoveredPr)
push_discovered results item none = err invalid_repo
push_discovered results item (some repo_full_name) =
    ok (results ++ discovered_of item repo_full_name ∷ [])

unfoldable pub visit_open_pr : List DiscoveredPr → SearchItem → Result (List DiscoveredPr)
visit_open_pr results item =
    push_discovered results item (extract_repo_full_name item.repository_url)

abbrev pub acknowledges : IssueComment → Bool
acknowledges c = is_acknowledgement_comment c.user_login c.body

module _ (octokit : Octokit) where
  open octokit use {
    search_issues, newest_comments, comments_since, get_comment, get_pull, get_commit,
    create_comment,
  }

  unfoldable pub list_open_prs : List RepoFilter → Result (List DiscoveredPr)
  unfolding search_pages visit_open_pr
  list_open_prs filters =
      search_pages visit_open_pr (search_issues (build_open_pr_search_query filters)) max_pages 1 []

  abbrev pub detected_of : SearchItem → String → IssueComment → String → DetectedComment
  detected_of item repo_full_name c body = record {
    url = c.html_url;
    repo_full_name = repo_full_name;
    pr_number = item.number;
    comment_id = pos c.id;
    created_at = c.created_at;
    updated_at = c.updated_at;
    pr_title = item.title;
    body = body;
  }

  abbrev pub detected_body :
      SearchItem → String → IssueComment → Option String → List DetectedComment
  detected_body item repo_full_name c none = []
  detected_body item repo_full_name c (some body) =
      if str_eq body "" then [] else detected_of item repo_full_name c body ∷ []

  -- `if (rateLimitComment && rateLimitComment.body)`.
  abbrev pub detected_in : SearchItem → String → Option IssueComment → List DetectedComment
  detected_in item repo_full_name none = []
  detected_in item repo_full_name (some c) = detected_body item repo_full_name c c.body

  abbrev pub visit_named :
      List DetectedComment → SearchItem → Option String → Result (List DetectedComment)
  visit_named results item none = err invalid_repo
  visit_named results item (some repo_full_name) = named_result (split_repo repo_full_name) (λ name.
      asked (newest_comments name item.number) (λ comments. ok (
        results
        ++ detected_in item repo_full_name
            (find (λ c. has_rate_limit_or_skip_marker c.body) comments))))

  unfoldable pub visit_limited : List DetectedComment → SearchItem → Result (List DetectedComment)
  visit_limited results item = visit_named results item (extract_repo_full_name item.repository_url)

  unfoldable pub search_review_limit_comments : List RepoFilter → Result (List DetectedComment)
  unfolding search_pages visit_limited
  search_review_limit_comments filters =
      search_pages visit_limited (search_issues (build_search_query filters)) max_pages 1 []

  unfoldable pub fetch_comment : RepoName → ℕ → Result FetchedComment
  fetch_comment name comment_id =
      asked (get_comment name comment_id)
        (λ c. ok (record { body = normalize_comment_body c.body; updated_at = c.updated_at }))

  unfoldable pub fetch_comment_by_url : String → Result FetchedComment
  unfolding parse_comment_url fetch_comment
  fetch_comment_by_url url = by_url (parse_comment_url url) fetch_comment

  -- The answer is the URL of the comment that was posted.
  unfoldable pub post_retrigger :
      String
      → ℕ
      → String
      → RunIdentity
      → String
      → ℕ
      → Option String
      → String
      → TriggerSource
      → Option RetriggerDiagnosis
      → Result String
  unfolding build_comment_body
  post_retrigger repo_url now raw_json identity repo pr source_comment_url run_id trigger_source
        diagnosis =
      named_result (split_repo repo) (λ name.
        asked
          (create_comment name pr (
            build_comment_body repo_url now source_comment_url run_id trigger_source diagnosis
              identity raw_json))
          ok)

  unfoldable pub get_pr_state : String → ℕ → Result GithubState
  get_pr_state repo pr =
      named_result (split_repo repo) (λ name. asked (get_pull name pr) (λ p. ok p.state))

  unfoldable pub get_pr_head_sha : RepoName → ℕ → Result String
  get_pr_head_sha name pr = asked (get_pull name pr) (λ p. ok p.head_sha)

  unfoldable pub get_commit_committed_at : RepoName → String → Result ℕ
  get_commit_committed_at name sha = asked (get_commit name sha) ok

  abbrev pub is_limited_body : Option String → Bool
  is_limited_body none = false
  is_limited_body (some body) =
      not (str_eq body "") && has_rate_limit_marker body && not (has_own_retrigger_marker body)

  abbrev pub latest_of : Option IssueComment → Option LatestComment
  latest_of none = none
  latest_of (some c) =
      some (record { comment_id = pos c.id; url = c.html_url; updated_at = c.updated_at })

  -- The first page alone.
  unfoldable pub find_latest_review_limit_comment : RepoName → ℕ → Result (Option LatestComment)
  find_latest_review_limit_comment name pr =
      asked (newest_comments name pr)
        (λ comments. ok (latest_of (find (λ c. is_limited_body c.body) comments)))

  abbrev pub acknowledged_in :
      List IssueComment
      → Option IssueComment
      → Option (Result (Option IssueComment))
      → Option (Result (Option IssueComment))
  acknowledged_in comments (some c) next = some (ok (some c))
  acknowledged_in comments none next =
      if ltb (length comments) per_page then some (ok none) else next

  abbrev pub acknowledged_page :
      Response (List IssueComment)
      → Option (Result (Option IssueComment))
      → Option (Result (Option IssueComment))
  acknowledged_page (refused status) next = some (err (github status))
  acknowledged_page (answered comments) next =
      acknowledged_in comments (find acknowledges comments) next

  -- `for (let page = 1; ; page++)`; `none` where the turns given do not reach the end.
  unfoldable pub find_acknowledgement_from :
      RepoName → ℕ → ℕ → ℕ → ℕ → Option (Result (Option IssueComment))
  find_acknowledgement_from name pr since zero page = none
  find_acknowledgement_from name pr since (suc turns) page =
      let rest = find_acknowledgement_from name pr since turns (suc page) in
      acknowledged_page (comments_since name pr since page) rest

  unfoldable pub find_acknowledgement : RepoName → ℕ → ℕ → ℕ → Option (Result (Option IssueComment))
  unfolding find_acknowledgement_from
  find_acknowledgement name pr since turns = find_acknowledgement_from name pr since turns 1
