-- ===== src/Poller.antt =====
-- PollDetector (src/detectorPoll.ts) and StalePrRecoverer (src/StalePrRecoverer.ts): a tick scans,
-- recovers, checks, searches, and keeps the date of the next review. The callback that takes a
-- detected comment is EnqueueService.handle, as src/container.ts binds it.
pub mod Latched
mod Examples
use rabbit_maximizer.Prelude.{
  ℕ, ◌+◌, ◌-◌, ◌*◌, String, Bool, true, false, not, Option, none, some, List, [], ◌∷◌, map, ◌==◌,
  ◌&&◌, ◌||◌, leb, ltb, str_eq, opt_str_eq, if◌then◌else◌,
}
use rabbit_maximizer.Domain.{CommentId, negsuc, CodeRabbitCommentType, review_limited, unknown}
use rabbit_maximizer.Schema.{PullRequest, CoderabbitComment, Db}
use rabbit_maximizer.Store.{Error, Result, ok, err, invalid_repo}
use rabbit_maximizer.SystemState.{set_next_review_available_at_if_later}
use rabbit_maximizer.PullRequests.{
  find_pending_acknowledgement, record_acknowledgement, find_stale_open_prs,
}
use rabbit_maximizer.PullRequests.Upsert.{find_by_repo_and_pr}
use rabbit_maximizer.Comments.{find_by_comment_id}
use rabbit_maximizer.Service.{
  Response, Setting, World, T, ◌>>=◌, ◌>>◌, return, throw, transact, reads, catch, answer,
  classify_coderabbit_comment,
}
use rabbit_maximizer.Discovery.{StaleOpenPr, DirectCheckPr, merge_by_pull_request_id}
use rabbit_maximizer.Detection.{DetectedComment, wait_or, handle}
use rabbit_maximizer.Github.{ListedComment}
use rabbit_maximizer.Github.Text.{RepoName, split_repo}
use rabbit_maximizer.Github.Urls.{build_pr_url}
use rabbit_maximizer.Scanner.{ScanSetting, ScanResult, scan}
use rabbit_maximizer.Checker.{ReviewLimitCandidate, CheckSetting, is_own_retrigger, check}

-- What an error carries of GitHub's response: the status and two headers.
pub record GithubError : Type 0 where
  pub status : Option ℕ
  pub ratelimit_remaining : Option String
  pub ratelimit_reset : Option String

-- One tick. `date_now` is what Date.now() reads when a pull request is recovered, `to_number` what
-- Number makes of a text, none for NaN.
pub record PollSetting : Type 0 where
  pub setting : Setting
  pub scan_setting : ScanSetting
  pub list_comments : RepoName → ℕ → Response (List ListedComment)
  pub search_review_limit_comments : Response (List DetectedComment)
  pub fetch_comment : RepoName → CommentId → Response String
  pub find_acknowledgement : RepoName → ℕ → Option ℕ → Response Bool
  pub date_now : ℕ → ℕ
  pub response_of : Error → GithubError
  pub to_number : String → Option ℕ

abbrev pub is_status : ℕ → Option ℕ → Bool
is_status code none = false
is_status code (some status) = status == code

abbrev pub reset_epoch : (String → Option ℕ) → Option String → Option ℕ
reset_epoch to_number none = none
reset_epoch to_number (some header) = if str_eq header "" then none else to_number header

-- parseGitHubRateLimitError: the epoch at which an exhausted quota is reset.
unfoldable pub parse_github_rate_limit_error : (String → Option ℕ) → GithubError → Option ℕ
parse_github_rate_limit_error to_number e =
    if not (is_status 403 e.status) && not (is_status 429 e.status)
      || not (opt_str_eq e.ratelimit_remaining (some "0"))
    then none
    else reset_epoch to_number e.ratelimit_reset

abbrev pub stale_open_pr : PullRequest → StaleOpenPr
stale_open_pr p = record {
  id = p.id;
  repo_full_name = p.repo_full_name;
  pr_number = p.pr_number;
  title = p.title;
}

-- `-Date.now()`.
abbrev pub negated : ℕ → CommentId
negated t = negsuc (t - 1)

-- `!earliestNextReview || candidate < earliestNextReview`.
abbrev pub earlier : Option ℕ → ℕ → Option ℕ
earlier none candidate = some candidate
earlier (some earliest) candidate = if ltb candidate earliest then some candidate else some earliest

abbrev pub is_unknown : CodeRabbitCommentType → Bool
is_unknown unknown = true
is_unknown _ = false

-- `stored && new Date(c.updatedAt) <= stored.last_seen_at`.
abbrev pub is_stored_seen : DetectedComment → Option CoderabbitComment → Bool
is_stored_seen c none = false
is_stored_seen c (some stored) = leb c.updated_at stored.last_seen_at

module _ (p : PollSetting) where
  open p use {setting, fetch_comment, find_acknowledgement}

  abbrev pub synthetic_comment : StaleOpenPr → DetectedComment
  synthetic_comment pr = record {
    url = build_pr_url pr.repo_full_name pr.pr_number;
    repo_full_name = pr.repo_full_name;
    pr_number = pr.pr_number;
    comment_id = negated (p.date_now pr.id);
    created_at = setting.env.now;
    updated_at = setting.env.now;
    pr_title = pr.title;
    body = "rate limited by coderabbit.ai — recovered from deleted comment";
  }

  unfoldable pub recover_all : List StaleOpenPr → T (Unit {0})
  recover_all [] = return tt
  recover_all (pr ∷ prs) =
      catch (handle setting (synthetic_comment pr) pr.id) (λ _. return tt) >>= λ _. recover_all prs

  unfoldable pub recover : T (List StaleOpenPr)
  unfolding recover_all
  recover w =
      let stale = map stale_open_pr (find_stale_open_prs setting.env.now w.db) in
      (recover_all stale >>= λ _. return stale) w

  abbrev pub check_setting : CheckSetting
  check_setting = record {
    now = setting.env.now;
    text = setting.text;
    list_comments = p.list_comments;
    on_detected = handle setting;
  }

  unfoldable pub check_directly : List DirectCheckPr → T (List ReviewLimitCandidate)
  check_directly prs w = let x = check check_setting prs w in (ok x.0, x.1)

  abbrev pub next_review_of : ℕ → Option ℕ → ℕ
  next_review_of updated_at wait_seconds =
      updated_at + wait_or setting.cfg.fallback_wait_seconds wait_seconds * 1000

  abbrev pub with_found : CodeRabbitCommentType → DetectedComment → String → Option ℕ → Option ℕ
  with_found review_limited c body earliest =
      earlier earliest (next_review_of c.updated_at (setting.text.parse_wait_seconds body))
  with_found _ c body earliest = earliest

  -- A comment of a registered pull request that was not seen since its edit is handed on.
  unfoldable pub hand_found : DetectedComment → Option PullRequest → Option ℕ → T (Option ℕ)
  hand_found c none earliest w = return earliest w
  hand_found c (some pr) earliest w =
      if is_stored_seen c (find_by_comment_id pr.id c.comment_id w.db)
      then return earliest w
      else (handle setting c pr.id >>= λ _. return earliest) w

  unfoldable pub take_found : DetectedComment → String → Option ℕ → T (Option ℕ)
  unfolding hand_found
  take_found c body earliest w =
      let type = classify_coderabbit_comment setting.text body in
      if is_unknown type
      then return earliest w
      else if is_own_retrigger setting.text type body
      then return earliest w
      else hand_found (record c { body = body })
          (find_by_repo_and_pr c.repo_full_name c.pr_number w.db) (with_found type c body earliest)
          w

  abbrev pub fetch_found : DetectedComment → Option ℕ → Option RepoName → T (Option ℕ)
  fetch_found c earliest none = throw invalid_repo
  fetch_found c earliest (some name) =
      answer (fetch_comment name c.comment_id) >>= λ body. take_found c body earliest

  unfoldable pub search_all : List DetectedComment → Option ℕ → T (Option ℕ)
  unfolding take_found
  search_all [] earliest = return earliest
  search_all (c ∷ cs) earliest =
      fetch_found c earliest (split_repo c.repo_full_name) >>= search_all cs

  -- The earliest of the dates that the direct candidates name.
  abbrev pub with_direct : List ReviewLimitCandidate → Option ℕ → Option ℕ
  with_direct [] earliest = earliest
  with_direct (c ∷ cs) earliest =
      with_direct cs (earlier earliest (next_review_of c.updated_at c.wait_seconds))

  abbrev pub note_acknowledged : ℕ → Bool → T (Unit {0})
  note_acknowledged id false = return tt
  note_acknowledged id true = transact (record_acknowledgement setting.env.now id)

  abbrev pub acknowledge_named : PullRequest → Option RepoName → T (Unit {0})
  acknowledge_named pr none = throw invalid_repo
  acknowledge_named pr (some name) =
      answer (find_acknowledgement name pr.pr_number pr.last_review_requested_at)
      >>= note_acknowledged pr.id

  abbrev pub acknowledge_pending : Option PullRequest → T (Unit {0})
  acknowledge_pending none = return tt
  acknowledge_pending (some pr) = acknowledge_named pr (split_repo pr.repo_full_name)

  unfoldable pub acknowledge : T (Unit {0})
  acknowledge = catch (reads find_pending_acknowledgement >>= acknowledge_pending) (λ _. return tt)

  abbrev pub keep_next_review : Option ℕ → T (Unit {0})
  keep_next_review none = return tt
  keep_next_review (some earliest) =
      transact (set_next_review_available_at_if_later setting.env.now earliest)

  unfoldable pub finish : List ReviewLimitCandidate → Option ℕ → T (Unit {0})
  unfolding acknowledge
  finish candidates earliest = acknowledge >> keep_next_review (with_direct candidates earliest)

  unfoldable pub search : List ReviewLimitCandidate → T (Unit {0})
  unfolding search_all finish
  search candidates = answer p.search_review_limit_comments >>= λ comments.
      search_all comments none >>= finish candidates

  unfoldable pub poll_scanned : ScanResult → T (Unit {0})
  unfolding recover check_directly search
  poll_scanned scanned = recover >>= λ stale.
      check_directly (merge_by_pull_request_id scanned.scanned_prs stale) >>= search

  unfoldable pub poll : T (Unit {0})
  unfolding poll_scanned
  poll = scan p.scan_setting >>= poll_scanned

  -- `Date.now() + Math.max(0, reset * 1000 - Date.now())`.
  abbrev pub retry_after : ℕ → Option ℕ → ℕ
  retry_after old none = old
  retry_after old (some reset) = setting.env.now + (reset * 1000 - setting.env.now)

  abbrev pub after_tick : ℕ → Result (Unit {0}) × World → ℕ × World
  after_tick old (ok _, w) = (old, w)
  after_tick old (err e, w) =
      (retry_after old (parse_github_rate_limit_error p.to_number (p.response_of e)), w)

  -- `executeTick`, with `rateLimitRetryAfter` before and after it.
  unfoldable pub execute_tick : ℕ → World → ℕ × World
  unfolding poll
  execute_tick rate_limit_retry_after w = after_tick rate_limit_retry_after (poll w)
